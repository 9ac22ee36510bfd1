-- ===== src/Peering/Boundary.antt =====
-- src/peering.rs: what `find_frame_boundary` finds.
use hyperliquid_market_bench.Prelude.{
  ℕ, zero, suc, ◌+◌, ◌-◌, ◌≤◌, ◌<◌, ◌≡◌, ◌⊎◌, inl, inr, ◌↔◌, List, Option, none, some, Bool, true,
  false, ◌||◌, not, is_some, ltb, ◌==◌, length, get_elem?, Ensures, if_elim, arith, Ensures-mono,
  bind-Ensures, subst, Bool-cases,
}
use hyperliquid_market_bench.Bytes.{slice, be_at}
use hyperliquid_market_bench.Bytes.Laws.{be_from-Ensures, index-Ensures, slice-length}
use hyperliquid_market_bench.Peering.Frames.{max_frame_body, decompress_data_frame}
use hyperliquid_market_bench.Peering.Resync.{
  resync_frames, well_formed, frames_from, boundary_from, find_frame_boundary,
}

module _ (decompress : List ℕ → ℕ → Option (List ℕ)) (buf : List ℕ) where
  -- A whole frame stands at an offset.
  pub record IsFrame (offset body_len kind : ℕ) : Type 0 where
    pub size : be_at 4 buf offset ≡ some body_len
    pub of_kind : get_elem? buf (offset + 4) ≡ some kind
    pub nonempty : 1 ≤ body_len
    pub small : body_len ≤ max_frame_body
    pub known : kind ≤ 1
    pub complete : offset + (5 + body_len) ≤ length buf

  -- The frame at an offset is compressed, and its body decompresses.
  abbrev pub Decompresses : ℕ → ℕ → Type 0
  Decompresses offset body_len =
      (body : List ℕ) × (slice buf (offset + 5) (offset + (5 + body_len)) ≡ some body)
      × (is_some (decompress_data_frame decompress body) ≡ true)

  -- Frames in a row from an offset on, of which those of kind 1 decompress, with one of these among
  -- them or before.
  abbrev pub AreFrames : ℕ → ℕ → Bool → Type 0
  AreFrames zero offset decoded = decoded ≡ true
  AreFrames (suc left) offset decoded =
      (body_len : ℕ) × (kind : ℕ) × IsFrame offset body_len kind
      × (((kind ≡ 0) × AreFrames left (offset + (5 + body_len)) decoded)
          ⊎ ((kind ≡ 1)
              × Decompresses offset body_len
              × AreFrames left (offset + (5 + body_len)) true))

  abbrev pub Tells : Type 0 → Bool → Type 0
  Tells A found = (found ≡ true) ↔ A

  -- The first frame, of a given length and kind, and those behind it.
  abbrev pub Here : ℕ → ℕ → Bool → ℕ → ℕ → Type 0
  Here left offset decoded body_len kind =
      IsFrame offset body_len kind
      × (((kind ≡ 0) × AreFrames left (offset + (5 + body_len)) decoded)
          ⊎ ((kind ≡ 1)
              × Decompresses offset body_len
              × AreFrames left (offset + (5 + body_len)) true))

  pub AreFrames-Here :
      (left offset body_len kind : ℕ) (decoded : Bool)
      → be_at 4 buf offset ≡ some body_len
      → get_elem? buf (offset + 4) ≡ some kind
      → AreFrames (suc left) offset decoded
      → Here left offset decoded body_len kind
  AreFrames-Here left offset body_len kind decoded e f a =
      let same_len : a.0 ≡ body_len = (let g = a.2.size in cc) in
      let same_kind : a.1 ≡ kind = (let g = a.2.of_kind in cc) in
      subst (λ n. Here left offset decoded n kind) same_len
        (subst (λ k. Here left offset decoded a.0 k) same_kind (a.2, a.3))

  pub well_formed-Tells :
      (left offset body_len kind : ℕ) (decoded : Bool)
      → be_at 4 buf offset ≡ some body_len
      → get_elem? buf (offset + 4) ≡ some kind
      → ((next : ℕ) (found : Bool)
          → Ensures
              (Tells (AreFrames left next found))
              (frames_from decompress buf left next found))
      → offset + 5 ≤ length buf
      → Ensures (Tells (Here left offset decoded body_len kind)) (
          well_formed decompress buf body_len kind offset decoded (frames_from decompress buf left))
  unfolding well_formed
  well_formed-Tells left offset body_len kind decoded e f rest l =
      let Q = Tells (Here left offset decoded body_len kind) in
      let total = 5 + body_len in
      if_elim (Ensures Q) (body_len == 0 || ltb max_frame_body body_len || ltb 1 kind) _ _
        (λ t. (
          λ u. absurd (ground arith),
          λ h.
              (let x = h.0.nonempty in
                let y = h.0.small in let z = h.0.known in absurd (ground arith)),
        ))
        λ t.
          if_elim (Ensures Q) (ltb (length buf - offset) total) _ _
            (λ u.
              (λ v. absurd (ground arith), λ h. (let x = h.0.complete in absurd (ground arith))))
            λ u.
              let here : IsFrame offset body_len kind = record {
                size = e;
                of_kind = f;
                nonempty = ground arith;
                small = ground arith;
                known = ground arith;
                complete = ground arith;
              } in
              if_elim (Ensures Q) (kind == 1) _ _
                (λ k.
                  let one : kind ≡ 1 = ground arith in
                  bind-Ensures _ Q (slice buf (offset + 5) (offset + total)) _
                    (slice-length buf (offset + 5) (offset + total) (omega arith) (ground arith))
                    λ body g size.
                      if_elim (Ensures Q) (not (is_some (decompress_data_frame decompress body))) _
                        _
                        (λ v. (
                          λ w. absurd (ground arith),
                          λ h. elim h.1 [
                            | inl i ↦ absurd (let x = i.0 in omega arith)
                            | inr i ↦
                                let same : i.1.0 ≡ body = (let x = i.1.1 in cc) in
                                let x =
                                  subst (λ b. is_some (decompress_data_frame decompress b) ≡ true)
                                    same i.1.2 in
                                absurd (ground arith)
                          ],
                        ))
                        λ v.
                          Ensures-mono (Tells (AreFrames left (offset + total) true)) Q _
                            (rest (offset + total) true)
                            λ found q. (
                              λ w. (here, inr (one, (body, g, ground arith), q.0 w)),
                              λ h. elim h.1 [
                                | inl i ↦ absurd (let x = i.0 in omega arith)
                                | inr i ↦ q.1 i.2
                              ],
                            ))
                λ k.
                  Ensures-mono (Tells (AreFrames left (offset + total) decoded)) Q _
                    (rest (offset + total) decoded)
                    λ found q. (
                      λ w. (here, inl (ground arith, q.0 w)),
                      λ h. elim h.1 [
                        | inl i ↦ q.1 i.1
                        | inr i ↦ absurd (let x = i.0 in ground arith)
                      ],
                    )

  pub frames_from-Tells :
      (left offset : ℕ) (decoded : Bool)
      → Ensures
          (Tells (AreFrames left offset decoded))
          (frames_from decompress buf left offset decoded)
  unfolding frames_from well_formed
  frames_from-Tells zero offset decoded = (λ e. e, λ e. e)
  frames_from-Tells (suc left) offset decoded =
      let Q = Tells (AreFrames (suc left) offset decoded) in
      if_elim (Ensures Q) (ltb (length buf - offset) 5) _ _
        (λ t. (λ e. absurd (ground arith), λ a. (let f = a.2.complete in absurd (ground arith))))
        λ t.
          bind-Ensures _ Q (be_at 4 buf offset) _ (be_from-Ensures 4 0 buf offset (ground arith))
            λ body_len e x.
              bind-Ensures _ Q (get_elem? buf (offset + 4)) _
                (index-Ensures buf (offset + 4) (ground arith))
                λ kind f y.
                  Ensures-mono (Tells (Here left offset decoded body_len kind)) Q _
                    (well_formed-Tells left offset body_len kind decoded e f
                      (frames_from-Tells left) (ground arith))
                    λ found q. (
                      λ w. (body_len, kind, (q.0 w).0, (q.0 w).1),
                      λ a. q.1 (AreFrames-Here left offset body_len kind decoded e f a),
                    )

  abbrev pub IsBoundary : ℕ → Type 0
  IsBoundary start = AreFrames resync_frames start false

  -- The first boundary, or none where there is none.
  abbrev pub IsFirst : Option ℕ → Type 0
  IsFirst none = (start : ℕ) → ¬ IsBoundary start
  IsFirst (some start) = IsBoundary start × ((before : ℕ) → before < start → ¬ IsBoundary before)

  pub boundary_from-IsFirst :
      (left start : ℕ)
      → length buf - 5 ≤ start + left
      → ((before : ℕ) → before < start → ¬ IsBoundary before)
      → Ensures IsFirst (boundary_from decompress buf left start)
  unfolding boundary_from
  boundary_from-IsFirst zero start l none_before = λ at b. elim (Bool-cases (ltb at start)) [
    | inl t ↦ none_before at (ground arith) b
    | inr t ↦ (let x = b.2.complete in let y = b.2.nonempty in absurd (ground arith))
  ]
  boundary_from-IsFirst (suc left) start l none_before =
      bind-Ensures (Tells (IsBoundary start)) IsFirst
        (frames_from decompress buf resync_frames start false) _
        (frames_from-Tells resync_frames start false)
        λ found e q.
          if_elim (Ensures IsFirst) found _ _ (λ t. (q.0 t, none_before))
            λ t. boundary_from-IsFirst left (suc start) (omega arith) λ before h b.
              elim (Bool-cases (ltb before start)) [
                | inl u ↦ none_before before (ground arith) b
                | inr u ↦
                    let same : before ≡ start = ground arith in
                    let now = q.1 (subst IsBoundary same b) in absurd (ground arith)
              ]

  -- The search does not panic on any buffer. It answers the first offset at which four whole frames
  -- stand in a row, none of them empty, oversize or of an unknown kind, of which those of kind 1, one
  -- at least, decompress; it answers none only where there is no such offset in the buffer.
  pub find_frame_boundary-IsFirst : Ensures IsFirst (find_frame_boundary decompress buf)
  unfolding find_frame_boundary
  find_frame_boundary-IsFirst =
      boundary_from-IsFirst (length buf - 5) 0 (omega arith) (λ before h b. absurd (omega arith))
