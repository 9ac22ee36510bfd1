-- ===== src/Join/Once.antt =====
-- src/vpc_mempool.rs: `MempoolJoin::offer` as a whole.
use hyperliquid_market_bench.Prelude.{
  ℕ, ◌≡◌, refl, List, [], true, false, String, String_discrete, All, Bool-cases, inl, inr, arith,
  is_some, some, none, ◌⊎◌,
}
use hyperliquid_market_bench.Dict.{get, contains_key, insert, remove}
use hyperliquid_market_bench.Dict.Laws.{get-insert, get-remove, All-insert, All-remove, All-get}
use hyperliquid_market_bench.Model.Keys.{MarketEvent}
use hyperliquid_market_bench.Join.{
  JoinInput, Entry, MempoolJoin, complete, hash_of, next_entry, add_leg, offer,
}
use hyperliquid_market_bench.Join.Offered.{
  Completes, both_events, Holds, seen_of, first_seen-seen_of, get-insert_other, get-remove_other,
  leg-Holds, get-inserted, leg-Completed,
}

abbrev pub Waiting : String × Entry → Type 0
Waiting e = (complete e.1 ≡ false) × (is_some e.1.first_seen ≡ true)

-- A finished hash is not open, and an open entry still waits for a leg and has its deadline.
pub record JoinInv (j : MempoolJoin) : Type 0 where
  pub apart :
      (h : String)
      → contains_key String_discrete h j.done ≡ true
      → contains_key String_discrete h j.opened ≡ false
  pub waiting : All Waiting j.opened

pub finish-JoinInv :
    (j : MempoolJoin) (hash : String) (now : ℕ)
    → JoinInv j
    → JoinInv (record j {
      opened = remove String_discrete hash j.opened;
      done = insert String_discrete hash now j.done;
    })
finish-JoinInv j hash now v = record {
  apart = λ h d. ground (
    arith,
    get-insert String_discrete hash h now j.done,
    get-remove String_discrete hash h j.opened,
    v.apart h,
  );
  waiting = All-remove String_discrete Waiting hash j.opened v.waiting;
}

open-JoinInv :
    (j : MempoolJoin) (hash : String) (entry : Entry)
    → contains_key String_discrete hash j.done ≡ false
    → Waiting (hash, entry)
    → JoinInv j
    → JoinInv (record j { opened = insert String_discrete hash entry j.opened })
open-JoinInv j hash entry n w v = record {
  apart = λ h d. elim (String_discrete hash h) [
    | yes e ↦ absurd (ground arith)
    | no e ↦ ground (arith, get-insert String_discrete hash h entry j.opened, v.apart h d)
  ];
  waiting = All-insert String_discrete Waiting hash entry j.opened w v.waiting;
}

seen-next_entry :
    (input : JoinInput) (now : ℕ) (j : MempoolJoin)
    → is_some (next_entry input now j).first_seen ≡ true
unfolding add_leg
seen-next_entry input now j = ground arith

-- The coin and what is known of the other hashes stay.
abbrev SameElsewhere : String → MempoolJoin → MempoolJoin → Type 0
SameElsewhere hash j k =
    (k.coin ≡ j.coin)
    × ((h : String)
        → ¬ (hash ≡ h)
        → (get String_discrete h k.opened ≡ get String_discrete h j.opened)
          × (get String_discrete h k.done ≡ get String_discrete h j.done))

finish-SameElsewhere :
    (hash : String) (now : ℕ) (j : MempoolJoin)
    → SameElsewhere hash j (record j {
      opened = remove String_discrete hash j.opened;
      done = insert String_discrete hash now j.done;
    })
finish-SameElsewhere hash now j =
    (refl, λ h n. (get-remove_other hash j.opened h n, get-insert_other hash now j.done h n))

-- What an offered leg does: nothing if its hash is finished; else, if it completes the hash, the two
-- events of its legs are emitted and the hash is finished; else the entry waits.
pub record Offers (input : JoinInput) (now : ℕ) (j : MempoolJoin)
    (r : List MarketEvent × MempoolJoin) : Type 0 where
  pub inv : JoinInv r.1
  pub finished : contains_key String_discrete (hash_of input) j.done ≡ true → r ≡ ([], j)
  pub silent : contains_key String_discrete (hash_of input) r.1.done ≡ false → r.0 ≡ []
  pub emitted :
      contains_key String_discrete (hash_of input) j.done ≡ false
      → contains_key String_discrete (hash_of input) r.1.done ≡ true
      → (g : ℕ × ℕ) × (v : ℕ × ℕ) × (time : ℕ) × Completes input
          (get String_discrete (hash_of input) j.opened)
          g
          v
          time
        × (r.0 ≡ both_events j.coin (hash_of input) g v time)
  pub kept :
      contains_key String_discrete (hash_of input) j.done ≡ false
      → contains_key String_discrete (hash_of input) r.1.done ≡ false
      → (e : Entry) × (get String_discrete (hash_of input) r.1.opened ≡ some e)
        × Holds input (get String_discrete (hash_of input) j.opened) e
        × (e.first_seen ≡ some (seen_of (get String_discrete (hash_of input) j.opened) now))
  pub remembered :
      contains_key String_discrete (hash_of input) j.done ≡ false
      → (get String_discrete (hash_of input) r.1.done ≡ none)
        ⊎ (get String_discrete (hash_of input) r.1.done ≡ some now)
  pub others : SameElsewhere (hash_of input) j r.1

-- From a state in which no finished hash is open and every open entry waits for a leg, an offered
-- leg keeps that state, the coin and all that is known of the other hashes. It changes nothing
-- where its hash is finished, and emits nothing where the hash is not finished afterwards. Where it
-- finishes the hash, the other leg was waiting, the hash is remembered from now on, and two events
-- are emitted under one key, the endpoint's and the sentry's, each with its own leg's receipt; they
-- are dated by the least of the two wall clocks and of the sentry's first receipt, where it is
-- known. Otherwise the hash's entry holds the first copy of each leg that came and the instant that
-- it was first seen.
pub offer-Offers :
    (input : JoinInput) (now : ℕ) (j : MempoolJoin)
    → JoinInv j
    → Offers input now j (offer input now j)
unfolding offer
offer-Offers input now j v =
    let hash = hash_of input in
    let entry = next_entry input now j in
    elim (Bool-cases (contains_key String_discrete hash j.done)) [
      | inl d ↦ rw d (record {
        inv = v;
        finished = λ _. refl;
        silent = λ _. refl;
        emitted = λ n _. absurd (ground arith);
        kept = λ n _. absurd (ground arith);
        remembered = λ n. absurd (ground arith);
        others = (refl, λ h n. (refl, refl));
      })
      | inr d ↦ rw d (elim (Bool-cases (complete entry)) [
        | inl e ↦ rw e (record {
          inv = finish-JoinInv j hash now v;
          finished = λ y. absurd (ground arith);
          silent = λ n. absurd (ground (arith, get-insert String_discrete hash hash now j.done));
          emitted = λ _ _.
              leg-Completed input now j.coin (get String_discrete hash j.opened)
                (λ w found. (All-get String_discrete Waiting hash w j.opened v.waiting found).0) e;
          kept = λ _ n. absurd (ground (arith, get-insert String_discrete hash hash now j.done));
          remembered = λ _. inr (get-inserted hash now j.done);
          others = finish-SameElsewhere hash now j;
        })
        | inr e ↦ rw e (record {
          inv = open-JoinInv j hash entry d (e, seen-next_entry input now j) v;
          finished = λ y. absurd (ground arith);
          silent = λ _. refl;
          emitted = λ _ y. absurd (ground arith);
          kept = λ _ _. (
            entry,
            get-inserted hash entry j.opened,
            leg-Holds input now (get String_discrete hash j.opened),
            first_seen-seen_of input now (get String_discrete hash j.opened),
          );
          remembered = λ _. inl (ground arith);
          others = (refl, λ h n. (get-insert_other hash entry j.opened h n, refl));
        })
      ])
    ]
