-- ===== src/Memory/Vma/Munmap.antt =====
-- `munmap_region` (`src/memory/vma.c`).
use reddyos_osdev.Base.{
  ℕ, ◌+◌, ◌%◌, ◌^◌, ◌≤◌, ◌<◌, ◌≡◌, ◌≢◌, ◌∙◌, ◌⊎◌, inl, inr, refl, ap, ap₂, sym, subst, fun_ext,
  true, false, some, List, ◌∷◌, length, ltb, leb, ◌==◌, arith, Bool-cases, ℕ_discrete, ==_iff,
  dec_lt,
}
use reddyos_osdev.Base.Int.{ℤ, pos}
use reddyos_osdev.Base.Outcome.{Outcome, done, ◌>>=◌}
use reddyos_osdev.Memory.Page.{add64}
use reddyos_osdev.Memory.BsTree.{BsTree, Among}
use reddyos_osdev.Memory.Vma.{
  VmArea, VmaType, vma_anon, vma_file, Vm, vma_start, areas, put_area, vma_insert, vma_remove,
  vma_destroy, vma_find, vma_cleanup, tail_area, split_tail, shrink, settle, munmap_region,
}
use reddyos_osdev.Memory.Vma.Search.{Contains, InRange, IsValid, vma_find_lem}
use reddyos_osdev.Memory.Vma.Gap.{All_at}
use reddyos_osdev.Memory.Vma.Mapping.{Unlisted, with_area, put_self, put_other, new_area_lem}
use reddyos_osdev.Memory.Vma.Unmapping.{
  Among-Beside, HasOutside, AllInside, Stuck, cleanup_from_inside, cleanup_from_outside,
}
use reddyos_osdev.Memory.Vma.Ranges.{Removed, head_gone, tail_gone, all_gone, middle_gone}

shrink_head :
    (addr len : ℕ) (vma : VmArea)
    → vma.start ≡ addr
    → addr + len < 2 ^ 64
    → ((shrink addr len vma).start ≡ addr + len)
      × ((shrink addr len vma).end ≡ vma.end)
      × ((shrink addr len vma).phys_pages ≡ vma.phys_pages)
unfolding shrink
shrink_head addr len vma e fits =
    let same : (addr == vma.start) ≡ true = ground (arith, e) in
    rw same (omega (arith, e, fits), refl, refl)

shrink_tail :
    (addr len : ℕ) (vma : VmArea)
    → vma.start < addr
    → ((shrink addr len vma).start ≡ vma.start)
      × ((shrink addr len vma).end ≡ addr)
      × ((shrink addr len vma).phys_pages ≡ vma.phys_pages)
unfolding shrink
shrink_tail addr len vma h =
    let other : (addr == vma.start) ≡ false = ground (arith, h) in rw other (refl, refl, refl)

tail_area_bounds :
    (vma : VmArea) (addr len : ℕ)
    → addr + len < 2 ^ 64
    → ((tail_area vma addr len).start ≡ addr + len) × ((tail_area vma addr len).end ≡ vma.end)
tail_area_bounds vma addr len fits = go vma.kind refl
  where
    go :
        (k : VmaType)
        → vma.kind ≡ k
        → ((tail_area vma addr len).start ≡ addr + len) × ((tail_area vma addr len).end ≡ vma.end)
    go vma_anon e = rw e (omega (arith, fits), refl)
    go vma_file e = rw e (omega (arith, fits), refl)

module _ (bt : BsTree) where
  -- The call on the area that contains the range.
  munmap_run :
      (fuel einval addr len : ℕ) (s : Vm bt) (a : ℕ)
      → vma_find bt s addr ≡ some a
      → (s.area a).start ≤ addr
      → addr + len ≤ (s.area a).end
      → addr + len < 2 ^ 64
      → munmap_region bt fuel einval addr len s ≡ (
          split_tail bt a addr len s >>= λ s1.
          settle bt fuel a (put_area bt s1 a (shrink addr len (s1.area a))) >>= λ s2.
          done (pos 0, s2))
  unfolding munmap_region
  munmap_run fuel einval addr len s a found lo hi fits =
      let low : ltb addr (s.area a).start ≡ false = ground (arith, lo) in
      let high : ltb (s.area a).end (add64 addr len) ≡ false = ground (arith, hi, fits) in
      rw (found, munmap_region) (rw (low, high) refl)

  settle_inside :
      (fuel : ℕ) (s : Vm bt) (a : ℕ) (vma : VmArea)
      → length vma.phys_pages ≤ fuel
      → vma.start < vma.end
      → AllInside vma vma.phys_pages
      → settle bt fuel a (put_area bt s a vma) ≡ done (put_area bt (put_area bt s a vma) a vma)
  unfolding settle vma_cleanup
  settle_inside fuel s a vma enough some_bytes inside =
      let left : leb vma.end vma.start ≡ false = ground (arith, some_bytes) in
      rw
        (put_self bt s a vma, left, cleanup_from_inside fuel vma false vma.phys_pages enough inside)
        refl

  settle_outside :
      (fuel : ℕ) (s : Vm bt) (a : ℕ) (vma : VmArea)
      → vma.start < vma.end
      → HasOutside vma vma.phys_pages
      → Stuck (settle bt fuel a (put_area bt s a vma))
  unfolding settle vma_cleanup
  settle_outside fuel s a vma some_bytes outside =
      let left : leb vma.end vma.start ≡ false = ground (arith, some_bytes) in
      elim (cleanup_from_outside fuel vma false vma.phys_pages outside) [
        | inl e ↦ inl (rw (put_self bt s a vma, left, e) refl)
        | inr e ↦ inr (rw (put_self bt s a vma, left, e) refl)
      ]

  settle_empty :
      (fuel : ℕ) (s : Vm bt) (a : ℕ) (vma : VmArea)
      → vma.end ≤ vma.start
      → settle bt fuel a (put_area bt s a vma)
        ≡ done (vma_destroy bt a (vma_remove bt a (put_area bt s a vma)))
  unfolding settle
  settle_empty fuel s a vma h =
      let nothing_left : leb vma.end vma.start ≡ true = ground (arith, h) in
      rw (put_self bt s a vma, nothing_left) refl

  put_twice :
      (s : Vm bt) (a : ℕ) (vma : VmArea)
      → put_area bt (put_area bt s a vma) a vma ≡ put_area bt s a vma
  put_twice s a vma =
      ap (λ f. record s { area = f })
        (fun_ext (λ b. elim (Bool-cases (b == a)) [ inl e ↦ rw e refl | inr e ↦ rw e refl ]))

  no_split :
      (s : Vm bt) (a addr len : ℕ)
      → ((s.area a).start ≡ addr) ⊎ (addr + len ≡ (s.area a).end)
      → addr + len < 2 ^ 64
      → split_tail bt a addr len s ≡ done s
  unfolding split_tail
  no_split s a addr len (inl h) fits =
      let t : ltb (s.area a).start addr ≡ false = ground (arith, h) in rw t refl
  no_split s a addr len (inr h) fits = elim (Bool-cases (ltb (s.area a).start addr)) [
    | inr e ↦ rw e refl
    | inl e ↦
        let t : ltb (add64 addr len) (s.area a).end ≡ false = ground (arith, h, fits) in
        rw (e, t) refl
  ]

  splits :
      (s : Vm bt) (a addr len b : ℕ) (more : List ℕ)
      → s.fresh ≡ b ∷ more
      → b ≢ 0
      → (s.area a).start < addr
      → addr + len < (s.area a).end
      → addr + len < 2 ^ 64
      → split_tail bt a addr len s
        ≡ done (with_area bt (record s { fresh = more }) b (tail_area (s.area a) addr len))
  unfolding split_tail
  splits s a addr len b more e z lo hi fits =
      let t : ltb (s.area a).start addr ≡ true = ground (arith, lo) in
      let t' : ltb (add64 addr len) (s.area a).end ≡ true = ground (arith, hi, fits) in
      rw (t, t', new_area_lem bt (tail_area (s.area a) addr len) s b more e z) refl

  -- Two areas that contain one address are the same.
  find_unique :
      (s : Vm bt) (a addr : ℕ)
      → IsValid bt s
      → Among a (areas bt s)
      → Contains (s.area a) addr
      → vma_find bt s addr ≡ some a
  find_unique s a addr v here c = elim (vma_find_lem bt s addr v) [
    | inr (e, misses) ↦ absurd (All_at _ a (areas bt s) here misses c)
    | inl (b, e, m, c') ↦ elim (ℕ_discrete b a) [
      | yes q ↦ e ∙ ap some q
      | no ne ↦ elim (Among-Beside s.area b a (areas bt s) v.apart m here ne) [
        | inl h ↦ absurd (omega (arith, h, c.1, c'.0))
        | inr h ↦ absurd (omega (arith, h, c'.1, c.0))
      ]
    ]
  ]

  -- The order of the two writes does not matter where the start of the area stays.
  swap :
      (s : Vm bt) (a b : ℕ) (vma tail : VmArea)
      → b ≢ a
      → vma.start ≡ (s.area a).start
      → put_area bt (with_area bt s b tail) a vma ≡ with_area bt (put_area bt s a vma) b tail
  unfolding vma_insert
  swap s a b vma tail ne same =
      ap₂ (λ f (t : bt.Tree). record s { area = f; tree = t })
        (fun_ext (λ k. elim (Bool-cases (k == a)) [
          | inl e ↦ let other : (k == b) ≡ false = ground (arith, e, ne) in rw (e, other) refl
          | inr e ↦ rw e refl
        ]))
        (ap (λ g. bt.insert g b s.tree)
          (fun_ext (λ k. elim (Bool-cases (k == b)) [
            | inl e ↦ rw (e, vma_start) refl
            | inr e ↦
                rw (e, vma_start)
                  (elim (Bool-cases (k == a)) [
                    | inl q ↦ rw q (ap (λ j. (s.area j).start) ((==_iff k a).0 q) ∙ sym same)
                    | inr q ↦ rw q refl
                  ])
          ])))

  module _ (fuel einval addr len : ℕ) (s : Vm bt) (a b : ℕ) (more : List ℕ) (v : IsValid bt s)
      (here : Among a (areas bt s)) (lo : (s.area a).start ≤ addr)
      (hi : addr + len ≤ (s.area a).end) (some_len : 0 < len) (heap : s.fresh ≡ b ∷ more)
      (some_address : b ≢ 0) (new : Unlisted b (areas bt s)) where
    small : addr + len < 2 ^ 64
    small =
        let r = All_at (λ k. InRange (s.area k)) a (areas bt s) here v.range in
        omega (arith, hi, r.1)

    run : munmap_region bt fuel einval addr len s ≡ (
        split_tail bt a addr len s >>= λ s1.
        settle bt fuel a (put_area bt s1 a (shrink addr len (s1.area a))) >>= λ s2.
        done (pos 0, s2))
    run =
        munmap_run fuel einval addr len s a
          (find_unique s a addr v here (lo, omega (arith, hi, some_len))) lo hi small

    distinct : b ≢ a
    distinct = λ e. All_at (λ k. k ≢ b) a (areas bt s) here new (sym e)

    -- In one piece: the area is not split, and what is left of it is `vma`.
    one_piece_run :
        (vma : VmArea)
        → shrink addr len (s.area a) ≡ vma
        → ((s.area a).start ≡ addr) ⊎ (addr + len ≡ (s.area a).end)
        → length vma.phys_pages ≤ fuel
        → vma.start < vma.end
        → AllInside vma vma.phys_pages
        → munmap_region bt fuel einval addr len s ≡ done (pos 0, put_area bt s a vma)
    one_piece_run vma e side enough some_bytes inside =
        run
        ∙ ap
            (λ o. o >>= λ s1.
              settle bt fuel a (put_area bt s1 a (shrink addr len (s1.area a))) >>= λ s2.
              done (pos 0, s2))
            (no_split s a addr len side small)
        ∙ ap (λ k. settle bt fuel a (put_area bt s a k) >>= λ s2. done (pos 0, s2)) e
        ∙ ap (λ o. o >>= λ s2. done (pos 0, s2))
            (settle_inside fuel s a vma enough some_bytes inside ∙ ap done (put_twice s a vma))

    -- In two pieces.
    abbrev split_state : Vm bt
    split_state = with_area bt (record s { fresh = more }) b (tail_area (s.area a) addr len)

    split_run :
        (s.area a).start < addr
        → addr + len < (s.area a).end
        → munmap_region bt fuel einval addr len s ≡ (
            settle bt fuel a (put_area bt split_state a (shrink addr len (s.area a))) >>= λ s2.
            done (pos 0, s2))
    unfolding vma_insert
    split_run lo' hi' =
        run
        ∙ ap
            (λ o. o >>= λ s1.
              settle bt fuel a (put_area bt s1 a (shrink addr len (s1.area a))) >>= λ s2.
              done (pos 0, s2))
            (splits s a addr len b more heap some_address lo' hi' small)
        ∙ ap
            (λ k. settle bt fuel a (put_area bt split_state a (shrink addr len k)) >>= λ s2.
              done (pos 0, s2))
            (put_other bt (record s { fresh = more }) b a (tail_area (s.area a) addr len)
              (λ e. distinct (sym e)))

    -- What the area keeps.
    abbrev left : VmArea
    left = shrink addr len (s.area a)

    left_some :
        ((s.area a).start < addr) ⊎ (addr + len < (s.area a).end)
        → (left.start < left.end) × (left.phys_pages ≡ (s.area a).phys_pages)
    left_some part = elim (ℕ_discrete (s.area a).start addr) [
      | yes st ↦
          let sh = shrink_head addr len (s.area a) st small in
          (
            elim part [
              | inl h ↦ absurd (omega (arith, h, st))
              | inr h ↦ omega (arith, sh.0, sh.1, h)
            ],
            sh.2,
          )
      | no st ↦
          let after' : (s.area a).start < addr = omega (arith, st, lo) in
          let sh = shrink_tail addr len (s.area a) after' in
          (omega (arith, sh.0, sh.1, after'), sh.2)
    ]

    -- What is left of the call when the area keeps something.
    settled :
        (P : Outcome (ℤ × Vm bt) → Type 0)
        → ((s.area a).start < addr) ⊎ (addr + len < (s.area a).end)
        → ((q : Vm bt) → P (settle bt fuel a (put_area bt q a left) >>= λ s2. done (pos 0, s2)))
        → P (munmap_region bt fuel einval addr len s)
    settled P part e = elim (dec_lt (s.area a).start addr) [
      | no h ↦ whole (inl (omega (arith, h, lo)))
      | yes h ↦ elim (dec_lt (addr + len) (s.area a).end) [
        | yes k ↦ subst P (sym (split_run h k)) (e split_state)
        | no k ↦ whole (inr (omega (arith, k, hi)))
      ]
    ]
      where
        whole :
            ((s.area a).start ≡ addr) ⊎ (addr + len ≡ (s.area a).end)
            → P (munmap_region bt fuel einval addr len s)
        whole side =
            subst P
              (sym (
                run
                ∙ ap
                    (λ o. o >>= λ s1.
                      settle bt fuel a (put_area bt s1 a (shrink addr len (s1.area a))) >>= λ s2.
                      done (pos 0, s2))
                    (no_split s a addr len side small)))
              (e s)

    -- On areas in order, with memory for one more, a part of an area is unmapped, and a page that
    -- was touched lies outside what the area keeps: the call does not come to an end, with
    -- whatever fuel.
    pub munmap_region_touched :
        ((s.area a).start < addr) ⊎ (addr + len < (s.area a).end)
        → HasOutside (shrink addr len (s.area a)) (s.area a).phys_pages
        → Stuck (munmap_region bt fuel einval addr len s)
    munmap_region_touched part out =
        let (some_bytes, same) = left_some part in
        settled Stuck part (λ q.
          elim (settle_outside fuel q a left some_bytes (subst (HasOutside left) (sym same) out)) [
            | inl e ↦ inl (rw e refl)
            | inr e ↦ inr (rw e refl)
          ])

    remains :
        ((s.area a).start < addr) ⊎ (addr + len < (s.area a).end)
        → (((s.area a).start ≡ addr) × (addr + len ≡ (s.area a).end))
          ⊎ AllInside left (s.area a).phys_pages
        → AllInside left left.phys_pages
    remains part (inl (st, en)) = elim part [
      | inl h ↦ absurd (omega (arith, h, st))
      | inr h ↦ absurd (omega (arith, h, en))
    ]
    remains part (inr h) = subst (AllInside left) (sym (left_some part).1) h

    -- On areas in order, with memory for one more and a round for each page of the area: `munmap`
    -- of whole pages within one area, of which no page outside what is left was touched, or of a
    -- whole area, gives 0; the areas cover what they did but for the range, and stay in order.
    pub munmap_region_lem :
        length (s.area a).phys_pages ≤ fuel
        → addr % 4096 ≡ 0
        → len % 4096 ≡ 0
        → (((s.area a).start ≡ addr) × (addr + len ≡ (s.area a).end))
          ⊎ AllInside (shrink addr len (s.area a)) (s.area a).phys_pages
        → (s' : Vm bt) × (munmap_region bt fuel einval addr len s ≡ done (pos 0, s'))
          × Removed bt s addr len s'
    unfolding vma_remove vma_destroy
    munmap_region_lem enough al al' whole = elim (ℕ_discrete (s.area a).start addr) [
      | yes st ↦
          let sh = shrink_head addr len (s.area a) st small in
          elim (ℕ_discrete (addr + len) (s.area a).end) [
            | yes en ↦ (
              vma_destroy bt a (vma_remove bt a (put_area bt s a (shrink addr len (s.area a)))),
              run
                  ∙ ap
                      (λ o. o >>= λ s1.
                        settle bt fuel a (put_area bt s1 a (shrink addr len (s1.area a))) >>= λ s2.
                        done (pos 0, s2))
                      (no_split s a addr len (inl st) small)
                  ∙ ap (λ o. o >>= λ s2. done (pos 0, s2))
                      (settle_empty fuel s a (shrink addr len (s.area a))
                        (omega (arith, sh.0, sh.1, en))),
              all_gone bt s
                  (vma_destroy bt a
                    (vma_remove bt a (put_area bt s a (shrink addr len (s.area a)))))
                  a addr len v here st en (bt.order-remove a s.tree)
                  (λ k ne. put_other bt s a k (shrink addr len (s.area a)) ne),
            )
            | no en ↦ (
              put_area bt s a (shrink addr len (s.area a)),
              one_piece_run (shrink addr len (s.area a)) refl (inl st)
                  (omega (arith, ap length sh.2, enough)) (omega (arith, sh.0, sh.1, en, hi))
                  (remains (inr (omega (arith, en, hi))) whole),
              head_gone bt s a addr len (shrink addr len (s.area a)) v here some_len al' st
                  (omega (arith, en, hi)) sh.0 sh.1,
            )
          ]
      | no st ↦
          let after' : (s.area a).start < addr = omega (arith, st, lo) in
          let sh = shrink_tail addr len (s.area a) after' in
          elim (ℕ_discrete (addr + len) (s.area a).end) [
            | yes en ↦ (
              put_area bt s a (shrink addr len (s.area a)),
              one_piece_run (shrink addr len (s.area a)) refl (inr en)
                  (omega (arith, ap length sh.2, enough)) (omega (arith, sh.0, sh.1, after'))
                  (remains (inl after') whole),
              tail_gone bt s a addr len (shrink addr len (s.area a)) v here al after' en sh.0 sh.1,
            )
            | no en ↦
                let more' : addr + len < (s.area a).end = omega (arith, en, hi) in
                let bounds = tail_area_bounds (s.area a) addr len small in
                let s0 : Vm bt = record s { fresh = more } in
                let tail = tail_area (s.area a) addr len in
                let r =
                  middle_gone bt s0 a addr len left tail b
                    (record { apart = v.apart; range = v.range }) here new some_len al al' after'
                    more' sh.0 sh.1 bounds.0 bounds.1 in
                (
                  with_area bt (put_area bt s0 a left) b tail,
                  split_run after' more'
                      ∙ ap (λ o. o >>= λ s2. done (pos 0, s2))
                          (settle_inside fuel split_state a left
                              (omega (arith, ap length sh.2, enough))
                              (omega (arith, sh.0, sh.1, after')) (remains (inl after') whole)
                            ∙ ap done (
                                put_twice split_state a left
                                ∙ swap s0 a b left tail distinct sh.0)),
                  record { valid = r.valid; less = r.less; rest = r.rest },
                )
          ]
    ]
