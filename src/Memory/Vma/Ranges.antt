-- ===== src/Memory/Vma/Ranges.antt =====
-- What the areas cover when a range is taken from one of them (`src/memory/vma.c`).
use reddyos_osdev.Base.{
  ℕ, ◌+◌, ◌%◌, ◌≤◌, ◌<◌, ◌≡◌, ◌≢◌, ◌∙◌, ◌⊎◌, inl, inr, refl, ap, sym, subst, List, [], ◌∷◌, ◌==◌,
  All, All-map, arith, Bool-cases, ℕ_discrete, ==_iff, dec_lt,
}
use reddyos_osdev.Memory.BsTree.{BsTree, Among, discard, insert_sorted}
use reddyos_osdev.Memory.Vma.{VmArea, Vm, vma_start, areas, put_area, vma_insert}
use reddyos_osdev.Memory.Vma.Search.{Contains, Disjoint, InRange, IsValid}
use reddyos_osdev.Memory.Vma.Gap.{All_at}
use reddyos_osdev.Memory.Vma.Mapping.{
  Unlisted, Beside, with_area, with_area-IsValid, put_self, put_other, All-both, Disjoint-frame,
  Disjoint-long,
}
use reddyos_osdev.Memory.Vma.Unmapping.{
  Disjoint-within, All-discard, Disjoint-discard, Among-Beside, Among-discard, Among-discard_ne,
  Among-insert_sorted, Among-insert_sorted_self, Among-insert_sorted_old,
}

abbrev pub Gone : ℕ → ℕ → ℕ → Type 0
Gone addr len x = (addr ≤ x) × (x < addr + len)

module _ (bt : BsTree) where
  -- Some area contains the address.
  abbrev pub Covered : Vm bt → ℕ → Type 0
  Covered s x = (b : ℕ) × Among b (areas bt s) × Contains (s.area b) x

  -- The areas of `s'` cover what those of `s` do, but for the range.
  pub record Removed (s : Vm bt) (addr len : ℕ) (s' : Vm bt) : Type 0 where
    pub valid : IsValid bt s'
    pub less : (x : ℕ) → Covered s' x → Covered s x × (¬ Gone addr len x)
    pub rest : (x : ℕ) → Covered s x → (¬ Gone addr len x) → Covered s' x

  -- An area in use is replaced by a part of it.
  put_part :
      (s : Vm bt) (a : ℕ) (vma : VmArea)
      → IsValid bt s
      → InRange vma
      → (s.area a).start ≤ vma.start
      → vma.start < vma.end
      → vma.end ≤ (s.area a).end
      → IsValid bt (put_area bt s a vma)
  put_part s a vma v range lo some_bytes hi =
      let s' = put_area bt s a vma in
      let xs = areas bt s in
      record {
        apart =
            Disjoint-within s.area s'.area xs
              (All-map (λ b. (s.area b).start < (s.area b).end) _ xs
                (λ b h. elim (ℕ_discrete b a) [
                  | yes e ↦
                      subst
                        (λ (k : ℕ).
                          ((s.area k).start ≤ (s'.area k).start)
                          × ((s'.area k).start < (s'.area k).end)
                          × ((s'.area k).end ≤ (s.area k).end))
                        (sym e)
                        (subst
                          (λ (k : VmArea).
                            ((s.area a).start ≤ k.start)
                            × (k.start < k.end)
                            × (k.end ≤ (s.area a).end))
                          (sym (put_self bt s a vma)) (lo, some_bytes, hi))
                  | no ne ↦
                      subst
                        (λ (k : VmArea).
                          ((s.area b).start ≤ k.start)
                          × (k.start < k.end)
                          × (k.end ≤ (s.area b).end))
                        (sym (put_other bt s a b vma ne)) (omega arith, h, omega arith)
                ])
                (Disjoint-long s.area xs v.apart))
              v.apart;
        range =
            All-map (λ b. InRange (s.area b)) _ xs
              (λ b h. elim (ℕ_discrete b a) [
                | yes e ↦
                    subst (λ (k : ℕ). InRange (s'.area k)) (sym e)
                      (subst InRange (sym (put_self bt s a vma)) range)
                | no ne ↦ subst InRange (sym (put_other bt s a b vma ne)) h
              ])
              v.range;
      }

  -- What the replaced area and the others cover.
  put_covers :
      (s : Vm bt) (a : ℕ) (vma : VmArea) (x : ℕ)
      → Covered (put_area bt s a vma) x
      → Contains vma x ⊎ ((b : ℕ) × (b ≢ a) × Among b (areas bt s) × Contains (s.area b) x)
  put_covers s a vma x (b, m, c) = elim (ℕ_discrete b a) [
    | yes e ↦ inl (
        subst (λ (k : VmArea). Contains k x) (ap (put_area bt s a vma).area e ∙ put_self bt s a vma)
          c)
    | no ne ↦ inr (b, ne, m, subst (λ (k : VmArea). Contains k x) (put_other bt s a b vma ne) c)
  ]

  covers_put :
      (s : Vm bt) (a : ℕ) (vma : VmArea) (x : ℕ)
      → Among a (areas bt s)
      → Contains vma x ⊎ ((b : ℕ) × (b ≢ a) × Among b (areas bt s) × Contains (s.area b) x)
      → Covered (put_area bt s a vma) x
  covers_put s a vma x here (inl c) =
      (a, here, subst (λ (k : VmArea). Contains k x) (sym (put_self bt s a vma)) c)
  covers_put s a vma x here (inr (b, ne, m, c)) =
      (b, m, subst (λ (k : VmArea). Contains k x) (sym (put_other bt s a b vma ne)) c)

  -- No other area reaches into the range.
  others_apart :
      (s : Vm bt) (a b x addr len : ℕ)
      → IsValid bt s
      → Among a (areas bt s)
      → Among b (areas bt s)
      → b ≢ a
      → (s.area a).start ≤ addr
      → addr + len ≤ (s.area a).end
      → Contains (s.area b) x
      → ¬ Gone addr len x
  others_apart s a b x addr len v here m ne lo hi c g =
      elim (Among-Beside s.area b a (areas bt s) v.apart m here ne) [
        | inl h ↦ absurd (omega (arith, h, g.1, hi, c.0))
        | inr h ↦ absurd (omega (arith, h, g.0, lo, c.1))
      ]

  -- The area keeps, in one piece, what of it is not in the range.
  one_piece :
      (s : Vm bt) (a addr len : ℕ) (vma : VmArea)
      → IsValid bt s
      → Among a (areas bt s)
      → (s.area a).start ≤ addr
      → addr + len ≤ (s.area a).end
      → InRange vma
      → (s.area a).start ≤ vma.start
      → vma.start < vma.end
      → vma.end ≤ (s.area a).end
      → ((x : ℕ) → Contains vma x → Contains (s.area a) x × (¬ Gone addr len x))
      → ((x : ℕ) → Contains (s.area a) x → (¬ Gone addr len x) → Contains vma x)
      → Removed s addr len (put_area bt s a vma)
  one_piece s a addr len vma v here lo hi range from some_bytes to less rest = record {
    valid = put_part s a vma v range from some_bytes to;
    less = λ x c. elim (put_covers s a vma x c) [
      | inl k ↦ ((a, here, (less x k).0), (less x k).1)
      | inr (b, ne, m, k) ↦ ((b, m, k), others_apart s a b x addr len v here m ne lo hi k)
    ];
    rest = λ x c keep. covers_put s a vma x here (elim (ℕ_discrete c.0 a) [
      | yes e ↦ inl (rest x (subst (λ (k : ℕ). Contains (s.area k) x) e c.2) keep)
      | no ne ↦ inr (c.0, ne, c.1, c.2)
    ]);
  }

  -- The part behind the range, or before it.
  pub head_gone :
      (s : Vm bt) (a addr len : ℕ) (vma : VmArea)
      → IsValid bt s
      → Among a (areas bt s)
      → 0 < len
      → len % 4096 ≡ 0
      → (s.area a).start ≡ addr
      → addr + len < (s.area a).end
      → vma.start ≡ addr + len
      → vma.end ≡ (s.area a).end
      → Removed s addr len (put_area bt s a vma)
  head_gone s a addr len vma v here some_len al lo hi st en =
      let r = All_at (λ b. InRange (s.area b)) a (areas bt s) here v.range in
      one_piece s a addr len vma v here (omega (arith, lo)) (omega (arith, hi))
        (
          omega (arith, r.0, st, lo),
          omega (arith, r.1, en),
          omega (arith, st, lo, r.2, al),
          omega (arith, en, r.3),
        )
        (omega (arith, st, lo)) (omega (arith, st, en, hi)) (omega (arith, en))
        (λ x c. (
          (omega (arith, c.0, st, lo), omega (arith, c.1, en)),
          λ g. absurd (omega (arith, g.1, c.0, st)),
        ))
        (λ x c keep. elim (dec_lt x (addr + len)) [
          | yes h ↦ absurd (keep (omega (arith, c.0, lo), h))
          | no h ↦ (omega (arith, h, st), omega (arith, c.1, en))
        ])

  pub tail_gone :
      (s : Vm bt) (a addr len : ℕ) (vma : VmArea)
      → IsValid bt s
      → Among a (areas bt s)
      → addr % 4096 ≡ 0
      → (s.area a).start < addr
      → addr + len ≡ (s.area a).end
      → vma.start ≡ (s.area a).start
      → vma.end ≡ addr
      → Removed s addr len (put_area bt s a vma)
  tail_gone s a addr len vma v here al lo hi st en =
      let r = All_at (λ b. InRange (s.area b)) a (areas bt s) here v.range in
      one_piece s a addr len vma v here (omega (arith, lo)) (omega (arith, hi))
        (
          omega (arith, r.0, st),
          omega (arith, r.1, en, hi),
          omega (arith, st, r.2),
          omega (arith, en, al),
        )
        (omega (arith, st)) (omega (arith, st, en, lo)) (omega (arith, en, hi))
        (λ x c. (
          (omega (arith, c.0, st), omega (arith, c.1, en, hi)),
          λ g. absurd (omega (arith, g.0, c.1, en)),
        ))
        (λ x c keep. elim (dec_lt x addr) [
          | yes h ↦ (omega (arith, c.0, st), omega (arith, h, en))
          | no h ↦ absurd (keep (omega (arith, h), omega (arith, c.1, hi)))
        ])

  discard-Unlisted :
      (area : ℕ → VmArea) (a : ℕ) (xs : List ℕ) → Disjoint area xs → Unlisted a (discard a xs)
  discard-Unlisted area a [] d = tt
  discard-Unlisted area a (x ∷ xs) d = elim (Bool-cases (a == x)) [
    | inl e ↦ rw e (
        All-map (λ b. (area x).end ≤ (area b).start) _ xs
          (λ b h q. absurd (omega (arith, h, d.0, ap (λ k. (area k).start) (q ∙ (==_iff a x).0 e))))
          d.1)
    | inr e ↦ rw e ((λ q. cc (e, (==_iff a x).1 (sym q))), discard-Unlisted area a xs d.2)
  ]

  -- The whole area goes.
  pub all_gone :
      (s s' : Vm bt) (a addr len : ℕ)
      → IsValid bt s
      → Among a (areas bt s)
      → (s.area a).start ≡ addr
      → addr + len ≡ (s.area a).end
      → areas bt s' ≡ discard a (areas bt s)
      → ((b : ℕ) → b ≢ a → s'.area b ≡ s.area b)
      → Removed s addr len s'
  all_gone s s' a addr len v here lo hi e same =
      let xs = areas bt s in
      let un = discard-Unlisted s.area a xs v.apart in
      let keeps : All (λ b. s'.area b ≡ s.area b) (discard a xs) =
        All-map (λ b. b ≢ a) _ (discard a xs) (λ b ne. same b ne) un in
      record {
        valid = record {
          apart = subst (Disjoint s'.area) (sym e) (
              Disjoint-frame s.area s'.area (discard a xs)
                (All-map _ _ (discard a xs)
                  (λ b q. (ap (λ (k : VmArea). k.start) q, ap (λ (k : VmArea). k.end) q)) keeps)
                (Disjoint-discard s.area a xs v.apart));
          range = subst (All (λ b. InRange (s'.area b))) (sym e) (
              All-map _ _ (discard a xs) (λ b h. subst InRange (sym h.1) h.0)
                (All-both (λ b. InRange (s.area b)) (λ b. s'.area b ≡ s.area b) (discard a xs)
                  (All-discard s.area _ a xs v.range) keeps));
        };
        less = λ x c.
            let m = subst (Among c.0) e c.1 in
            let ne = All_at (λ b. b ≢ a) c.0 (discard a xs) m un in
            let k = subst (λ (q : VmArea). Contains q x) (same c.0 ne) c.2 in
            let old = Among-discard a c.0 xs m in
            (
              (c.0, old, k),
              others_apart s a c.0 x addr len v here old ne (omega (arith, lo)) (omega (arith, hi))
                  k,
            );
        rest = λ x c keep. elim (ℕ_discrete c.0 a) [
          | yes q ↦
              let k = subst (λ (j : ℕ). Contains (s.area j) x) q c.2 in
              absurd (keep (omega (arith, k.0, lo), omega (arith, k.1, hi)))
          | no ne ↦ (
            c.0,
            subst (Among c.0) (sym e) (Among-discard_ne a c.0 xs ne c.1),
            subst (λ (q : VmArea). Contains q x) (sym (same c.0 ne)) c.2,
          )
        ];
      }

  All-Among : (P : ℕ → Type 0) (xs : List ℕ) → ((b : ℕ) → Among b xs → P b) → All P xs
  All-Among P [] f = tt
  All-Among P (x ∷ xs) f = (f x (inl refl), All-Among P xs (λ b m. f b (inr m)))

  -- What an area more covers.
  with_covers :
      (s : Vm bt) (b : ℕ) (tail : VmArea) (x : ℕ)
      → areas bt (with_area bt s b tail)
        ≡ insert_sorted (vma_start bt (put_area bt s b tail)) b (areas bt s)
      → Covered (with_area bt s b tail) x
      → Contains tail x ⊎ Covered s x
  unfolding vma_insert
  with_covers s b tail x e c = elim (ℕ_discrete c.0 b) [
    | yes q ↦ inl (
        subst (λ (k : VmArea). Contains k x)
          (ap (put_area bt s b tail).area q ∙ put_self bt s b tail) c.2)
    | no ne ↦
        elim (Among-insert_sorted (vma_start bt (put_area bt s b tail)) b c.0 (areas bt s)
          (subst (Among c.0) e c.1)) [
            | inl q ↦ absurd (ne q)
            | inr m ↦
                inr
                  (c.0, m, subst (λ (k : VmArea). Contains k x) (put_other bt s b c.0 tail ne) c.2)
          ]
  ]

  -- The middle goes: the area `a` keeps what is before it, and a new one has what is behind it.
  pub middle_gone :
      (s : Vm bt) (a addr len : ℕ) (vma tail : VmArea) (b : ℕ)
      → IsValid bt s
      → Among a (areas bt s)
      → Unlisted b (areas bt s)
      → 0 < len
      → addr % 4096 ≡ 0
      → len % 4096 ≡ 0
      → (s.area a).start < addr
      → addr + len < (s.area a).end
      → vma.start ≡ (s.area a).start
      → vma.end ≡ addr
      → tail.start ≡ addr + len
      → tail.end ≡ (s.area a).end
      → Removed s addr len (with_area bt (put_area bt s a vma) b tail)
  unfolding vma_insert
  middle_gone s a addr len vma tail b v here new some_len al al' lo hi st en st' en' =
      let r = All_at (λ k. InRange (s.area k)) a (areas bt s) here v.range in
      let s1 = put_area bt s a vma in
      let v1 : IsValid bt s1 =
        put_part s a vma v
          (
            omega (arith, r.0, st),
            omega (arith, r.1, en, hi),
            omega (arith, st, r.2),
            omega (arith, en, al),
          )
          (omega (arith, st)) (omega (arith, st, en, lo)) (omega (arith, en, hi)) in
      let w =
        with_area-IsValid bt s1 b tail v1 new
          (
            omega (arith, r.0, st', lo),
            omega (arith, r.1, en'),
            omega (arith, st', al, al'),
            omega (arith, en', r.3),
          )
          (omega (arith, st', en', hi))
          (All-Among _ (areas bt s) (λ k m. elim (ℕ_discrete k a) [
            | yes e ↦ inl (
                subst (λ (q : VmArea). q.end ≤ tail.start)
                  (sym (ap s1.area e ∙ put_self bt s a vma)) (omega (arith, en, st')))
            | no ne ↦
                subst (Beside tail) (sym (put_other bt s a k vma ne))
                  (elim (Among-Beside s.area k a (areas bt s) v.apart m here ne) [
                    | inl h ↦ inr (omega (arith, h, en'))
                    | inr h ↦ inl (omega (arith, h, st', lo))
                  ])
          ])) in
      let s2 = with_area bt s1 b tail in
      let lift : (x : ℕ) → Covered s1 x → Covered s2 x = λ x c.
        let ne = All_at (λ k. k ≢ b) c.0 (areas bt s) c.1 new in
        (
          c.0,
          subst (Among c.0) (sym w.0) (
              Among-insert_sorted_old (vma_start bt (put_area bt s1 b tail)) b c.0 (areas bt s)
                c.1),
          subst (λ (q : VmArea). Contains q x) (sym (put_other bt s1 b c.0 tail ne)) c.2,
        ) in
      record {
        valid = w.1;
        less = λ x c. elim (with_covers s1 b tail x w.0 c) [
          | inl k ↦ (
            (a, here, (omega (arith, k.0, st', lo), omega (arith, k.1, en'))),
            λ g. absurd (omega (arith, g.1, k.0, st')),
          )
          | inr c' ↦ elim (put_covers s a vma x c') [
            | inl k ↦ (
              (a, here, (omega (arith, k.0, st), omega (arith, k.1, en, hi))),
              λ g. absurd (omega (arith, g.0, k.1, en)),
            )
            | inr (k, ne, m, q) ↦ (
              (k, m, q),
              others_apart s a k x addr len v here m ne (omega (arith, lo)) (omega (arith, hi)) q,
            )
          ]
        ];
        rest = λ x c keep. elim (ℕ_discrete c.0 a) [
          | no ne ↦ lift x (covers_put s a vma x here (inr (c.0, ne, c.1, c.2)))
          | yes e ↦
              let k = subst (λ (j : ℕ). Contains (s.area j) x) e c.2 in
              elim (dec_lt x addr) [
                | yes h ↦
                    lift x (
                      covers_put s a vma x here
                        (inl (omega (arith, k.0, st), omega (arith, h, en))))
                | no h ↦ elim (dec_lt x (addr + len)) [
                  | yes g ↦ absurd (keep (omega (arith, h), g))
                  | no g ↦ (
                    b,
                    subst (Among b) (sym w.0) (
                        Among-insert_sorted_self (vma_start bt (put_area bt s1 b tail)) b
                          (areas bt s)),
                    subst (λ (q : VmArea). Contains q x) (sym (put_self bt s1 b tail))
                        (omega (arith, g, st'), omega (arith, k.1, en')),
                  )
                ]
              ]
        ];
      }
