-- ===== src/Memory/Pmm/Fill.antt =====
-- `pmm_fill` (`src/memory/pmm.c`): it moves the next pages of the memory map to the free list.
use reddyos_osdev.Base.{
  ℕ, zero, suc, ◌+◌, ◌-◌, ◌≤◌, ◌<◌, ◌≡◌, ◌∙◌, refl, ap, sym, subst, some-injective, List, [], ◌∷◌,
  ◌++◌, take, drop, length, get_elem?, arith, inl, inr, some, none, Option-cases, drop_at,
  drop_past, take_past, drop_past_append, take_inside, drop_inside,
}
use reddyos_osdev.Base.Outcome.{done}
use reddyos_osdev.Memory.Store.{phys_to_virt, write, Words}
use reddyos_osdev.Memory.Pmm.{Entry, Pmm, visit, fill_loop, fill, next_entry, aligned_end}
use reddyos_osdev.Memory.Pmm.FreeList.{pushed, links}
use reddyos_osdev.Memory.Pmm.Regions.{entry_pages, pages_from, pages_left, Fits, AllFit}
use reddyos_osdev.Memory.Pmm.Visit.{Visited, ended, stopped, visit_lem, filled, Within}

-- The cursor stands inside the region of its entry, or before it.
abbrev pub CursorFits : List Entry → Pmm → Type 0
CursorFits entries s =
    (s.fill_entry ≤ length entries)
    × ((e : Entry) → get_elem? entries s.fill_entry ≡ some e → Within e s.fill_offset)

get_elem?-AllFit :
    (entries : List Entry) (k : ℕ) {e : Entry}
    → AllFit entries
    → get_elem? entries k ≡ some e
    → Fits e × (k < length entries)
get_elem?-AllFit [] k f h = cc
get_elem?-AllFit (x ∷ es) zero f h = ground (arith, f.0)
get_elem?-AllFit (x ∷ es) (suc k) f h =
    let r = get_elem?-AllFit es k f.1 h in (r.0, omega (arith, r.1))

module _ (hhdm : ℕ) where
  pushed-append :
      (ps qs : List ℕ) (s : Pmm) → pushed hhdm (ps ++ qs) s ≡ pushed hhdm qs (pushed hhdm ps s)
  pushed-append ps qs s =
      let e = links-append ps qs s.word s.head in ap (λ r. record s { word = r.0; head = r.1 }) e
    where
      links-append :
          (ps qs : List ℕ) (w : Words) (h : ℕ)
          → links hhdm (ps ++ qs) w h ≡ links hhdm qs (links hhdm ps w h).0 (links hhdm ps w h).1
      links-append [] qs w h = refl
      links-append (p ∷ ps) qs w h =
          links-append ps qs (write w (phys_to_virt hhdm p) h) (phys_to_virt hhdm p)

  module _ (entries : List Entry) where
    fill_loop_past :
        (fuel left : ℕ) (s : Pmm)
        → get_elem? entries s.fill_entry ≡ none
        → fill_loop hhdm entries (suc fuel) left s ≡ done s
    unfolding fill_loop
    fill_loop_past fuel left s h = rw (h, fill_loop)

    fill_loop_stop : (fuel : ℕ) (s : Pmm) → 0 < fuel → fill_loop hhdm entries fuel 0 s ≡ done s
    unfolding fill_loop
    fill_loop_stop zero s h = absurd (omega arith)
    fill_loop_stop (suc fuel) s h = elim (Option-cases (get_elem? entries s.fill_entry)) [
      | inl past ↦ rw (past, fill_loop)
      | inr (e, here) ↦ rw (here, fill_loop)
    ]

    fill_loop_step :
        (fuel left : ℕ) (s : Pmm) (e : Entry)
        → get_elem? entries s.fill_entry ≡ some e
        → fill_loop hhdm entries (suc fuel) (suc left) s
          ≡ fill_loop hhdm entries fuel (visit hhdm e (suc left) s).0 (visit hhdm e (suc left) s).1
    unfolding fill_loop
    fill_loop_step fuel left s e h = rw (h, fill_loop) (ground arith)

    -- A run of `pmm_fill` that moved the next `left` pages, or all that were left.
    pub record Moved (left : ℕ) (s s' : Pmm) : Type 0 where
      pub listed : s' ≡ record (pushed hhdm (take left (pages_left entries s)) s) {
        fill_entry = s'.fill_entry;
        fill_offset = s'.fill_offset;
      }
      pub rest : pages_left entries s' ≡ drop left (pages_left entries s)
      pub cursor : CursorFits entries s'

    fill_loop_lem :
        (fuel left : ℕ) (s : Pmm)
        → AllFit entries
        → CursorFits entries s
        → length entries + 1 < fuel + s.fill_entry
        → (s' : Pmm) × (fill_loop hhdm entries fuel left s ≡ done s') × Moved left s s'
    unfolding pages_from
    fill_loop_lem zero left s f c enough = absurd (omega (arith, c.0))
    fill_loop_lem (suc fuel) zero s f c enough = (
      s,
      fill_loop_stop (suc fuel) s (omega arith),
      record { listed = refl; rest = refl; cursor = c },
    )
    fill_loop_lem (suc fuel) (suc left) s f c enough =
        elim (Option-cases (get_elem? entries s.fill_entry)) [
          | inl past ↦
              let none_left : pages_left entries s ≡ [] =
                ap (λ es. pages_from es s.fill_offset) (drop_past entries s.fill_entry past) in
              (
                s,
                fill_loop_past fuel (suc left) s past,
                record { listed = rw none_left; rest = rw none_left; cursor = c },
              )
          | inr (e, here) ↦
              let facts = get_elem?-AllFit entries s.fill_entry f here in
              let left_here : pages_left entries s
                  ≡ entry_pages e s.fill_offset ++ pages_from (drop (s.fill_entry + 1) entries) 0 =
                ap (λ es. pages_from es s.fill_offset) (drop_at entries s.fill_entry here) in
              go e here facts left_here
                (visit_lem hhdm e (suc left) s facts.0 (c.1 e here) (omega arith))
                (λ l t. fill_loop_lem fuel l t f)
        ]
      where
        go :
            (e : Entry)
            → get_elem? entries s.fill_entry ≡ some e
            → Fits e × (s.fill_entry < length entries)
            → pages_left entries s
              ≡ entry_pages e s.fill_offset ++ pages_from (drop (s.fill_entry + 1) entries) 0
            → Visited hhdm e (suc left) s (visit hhdm e (suc left) s)
            → ((l : ℕ) (t : Pmm)
                → CursorFits entries t
                → length entries + 1 < fuel + t.fill_entry
                → (s' : Pmm) × (fill_loop hhdm entries fuel l t ≡ done s') × Moved l t s')
            → (s' : Pmm) × (fill_loop hhdm entries (suc fuel) (suc left) s ≡ done s')
              × Moved (suc left) s s'
        go e here facts left_here (ended run few) ih =
            let ps = entry_pages e s.fill_offset in
            let t : Pmm = next_entry (pushed hhdm ps s) in
            let l = suc left - length ps in
            let (s', r, m) =
              ih l t (omega (arith, facts.1), λ e' at fresh. absurd (fresh refl))
                (omega (arith, enough)) in
            let taken : take (suc left) (pages_left entries s)
                ≡ ps ++ take l (pages_left entries t) =
              ap (take (suc left)) left_here ∙ take_past (suc left) ps _ few in
            (
              s',
              fill_loop_step fuel left s e here
                  ∙ ap (λ v. fill_loop hhdm entries fuel v.0 v.1) run
                  ∙ r,
              record {
                listed =
                    m.listed
                    ∙ ap
                        (λ (q : Pmm). record q {
                          fill_entry = s'.fill_entry;
                          fill_offset = s'.fill_offset;
                        })
                        (sym (
                          ap (λ ps. pushed hhdm ps s) taken
                          ∙ pushed-append ps (take l (pages_left entries t)) s));
                rest =
                    m.rest
                    ∙ sym (ap (drop (suc left)) left_here ∙ drop_past_append (suc left) ps _ few);
                cursor = m.cursor;
              },
            )
        go e here facts left_here (stopped o run more same fits) ih =
            let ps = entry_pages e s.fill_offset in
            let t : Pmm = filled hhdm (take (suc left) ps) o s in
            let left_after : pages_left entries t
                ≡ entry_pages e o ++ pages_from (drop (s.fill_entry + 1) entries) 0 =
              ap (λ es. pages_from es o) (drop_at entries s.fill_entry here) in
            let inside : suc left ≤ length ps = omega (arith, more) in
            (
              t,
              fill_loop_step fuel left s e here
                  ∙ ap (λ v. fill_loop hhdm entries fuel v.0 v.1) run
                  ∙ fill_loop_stop fuel t (omega (arith, facts.1, enough)),
              record {
                listed =
                    ap (λ (q : List ℕ). filled hhdm q o s)
                      (sym (ap (take (suc left)) left_here ∙ take_inside (suc left) ps _ inside));
                rest =
                    left_after
                    ∙ ap (λ q. q ++ pages_from (drop (s.fill_entry + 1) entries) 0) same
                    ∙ sym (ap (drop (suc left)) left_here ∙ drop_inside (suc left) ps _ inside);
                cursor = (
                  c.0,
                  λ e' at fresh.
                      subst (λ x. x.base + o ≤ aligned_end x) (some-injective e e' (sym here ∙ at))
                        fits,
                );
              },
            )

    -- `pmm_fill` ends, and moves the next `pages` pages of the memory map to the free list.
    pub fill_lem :
        (pages : ℕ) (s : Pmm)
        → AllFit entries
        → CursorFits entries s
        → (s' : Pmm) × (fill hhdm entries pages s ≡ done s') × Moved pages s s'
    unfolding fill
    fill_lem pages s f c = fill_loop_lem (length entries + 2) pages s f c (omega arith)
