-- ===== src/Audit/Walk/Paging.antt =====
-- The pages of a walk make one check of the whole window, whatever the size of a page.
use verixa.Prelude.{
  ℕ, zero, suc, ◌+◌, ◌≤◌, ◌<◌, true, false, List, [], ◌++◌, Option, none, some, ◌≡◌, refl, sym, ap,
  ◌∙◌, arith, ltb, eqb, length, take, drop, take-append-drop, length-take_le, length-append, ltb→lt,
  inl, inr, Bool-cases, Option-cases, ◌||◌,
}
use verixa.Prelude.Text.{Text}
use verixa.Audit.Entry.{Platform, AuditLogEntry, ChainBreak, next_sequence, verify_chain_from}
use verixa.Audit.Entry.Chain.{
  last_from, verify_chain_from-append, verify_chain_from-append_break, verify_chain_from-Linked,
  Linked-verify_chain_from, next_sequence-last_from,
}
use verixa.Audit.Walk.Rows.{
  Ascending, window, rows_from, next_rows, next_sequence-cursor_after, last_of-last_from,
  window_page, window_short, remaining_less, empty_window,
}
use verixa.Audit.Walk.{
  Walk, AnchorRecord, cursor_after, remaining, page_limit, read_page, walk_loop, is_some, is_empty,
}

module _ (p : Platform) (organization_id : Option Text) (records : List AnchorRecord)
    (log : List AuditLogEntry) (to_sequence : Option ℕ) (batch_size : ℕ) where
  abbrev pub loop : ℕ → ℕ → Walk → Option Walk
  loop = walk_loop p organization_id records log to_sequence batch_size

  abbrev limit_at : ℕ → ℕ
  limit_at cursor = page_limit batch_size (remaining to_sequence cursor)

  abbrev page_at : ℕ → List AuditLogEntry
  page_at cursor = take (limit_at cursor) (rows_from cursor log)

  module _ (fuel cursor : ℕ) (w : Walk) where
    loop_stops :
        (is_some w.first_break || eqb (limit_at cursor) 0 || is_empty (page_at cursor)) ≡ true
        → loop (suc fuel) cursor w ≡ some w
    unfolding walk_loop
    loop_stops h = rw h

    module _
        (going : (is_some w.first_break || eqb (limit_at cursor) 0 || is_empty (page_at cursor))
          ≡ false) where
      loop_ends :
          ltb (length (page_at cursor)) (limit_at cursor) ≡ true
          → loop (suc fuel) cursor w ≡ some (read_page p organization_id records (page_at cursor) w)
      unfolding walk_loop
      loop_ends h = rw (going, h)

      loop_goes_on :
          ltb (length (page_at cursor)) (limit_at cursor) ≡ false
          → loop (suc fuel) cursor w
            ≡ loop fuel
                (cursor_after cursor (page_at cursor))
                (read_page p organization_id records (page_at cursor) w)
      unfolding walk_loop
      loop_goes_on h = rw (going, h)

  -- The walk from a state ends, and reports the first break of the rest of the window.
  abbrev pub Walked : ℕ → ℕ → Walk → Type 0
  Walked fuel cursor w =
      (w' : Walk) × (loop fuel cursor w ≡ some w')
      × (w'.first_break
          ≡ verify_chain_from p w.previous
              (window (remaining to_sequence cursor) (rows_from cursor log)))

  module _ (cursor : ℕ) (w : Walk) where
    abbrev read : Walk
    read = read_page p organization_id records (page_at cursor) w

    read_first_break : read.first_break ≡ verify_chain_from p w.previous (page_at cursor)
    unfolding read_page
    read_first_break = refl

    read_previous : read.previous ≡ last_from w.previous (page_at cursor)
    unfolding read_page
    read_previous = last_of-last_from w.previous (page_at cursor)

  module _ (bound : ℕ) (sorted : Ascending bound log) (positive : 1 ≤ batch_size) where
    rest_of_window :
        (cursor : ℕ) (w : Walk)
        → next_sequence w.previous ≡ cursor
        → ltb (length (page_at cursor)) (limit_at cursor) ≡ false
        → (read cursor w).first_break ≡ none
        → window (remaining to_sequence cursor) (rows_from cursor log)
          ≡ page_at cursor
            ++ window
                (remaining to_sequence (cursor_after cursor (page_at cursor)))
                (rows_from (cursor_after cursor (page_at cursor)) log)
    rest_of_window cursor w q full ok =
        let page = page_at cursor in
        let limit = limit_at cursor in
        let linked =
          verify_chain_from-Linked p w.previous page (sym (read_first_break cursor w) ∙ ok) in
        let whole : length page ≡ limit =
          ground (arith, length-take_le limit (rows_from cursor log)) in
        let moved : cursor_after cursor page ≡ cursor + limit =
          sym (next_sequence-cursor_after w.previous cursor page q)
          ∙ next_sequence-last_from p w.previous page linked
          ∙ omega (arith, q, whole) in
        let less = remaining to_sequence (cursor_after cursor page) in
        window_page batch_size (remaining to_sequence cursor) (rows_from cursor log) less
          (ap (remaining to_sequence) moved ∙ remaining_less to_sequence cursor limit)
        ∙ ap (λ r. page ++ window less r) (sym (next_rows cursor bound limit log sorted))

    -- A full page takes rows away.
    full_page :
        (cursor : ℕ)
        → (eqb (limit_at cursor) 0 || is_empty (page_at cursor)) ≡ false
        → ltb (length (page_at cursor)) (limit_at cursor) ≡ false
        → length (rows_from (cursor_after cursor (page_at cursor)) log)
          < length (rows_from cursor log)
    full_page cursor going full =
        let rows = rows_from cursor log in
        let limit = limit_at cursor in
        let parts =
          ap length (sym (take-append-drop limit rows))
          ∙ length-append (page_at cursor) (drop limit rows) in
        let some_limit : 0 < length (page_at cursor) = ground arith in
        omega (arith, ap length (next_rows cursor bound limit log sorted))

    broken_stays :
        (fuel cursor : ℕ) (w : Walk) {b : ChainBreak}
        → 0 < fuel
        → w.first_break ≡ some b
        → loop fuel cursor w ≡ some w
    broken_stays zero cursor w l h = absurd (omega arith)
    broken_stays (suc fuel) cursor w l h = loop_stops fuel cursor w (ground arith)

    module _ (cursor : ℕ) (w : Walk) where
      abbrev checked : List AuditLogEntry → Option ChainBreak
      checked = verify_chain_from p w.previous

      abbrev left : List AuditLogEntry
      left = window (remaining to_sequence cursor) (rows_from cursor log)

      stopped_break :
          (eqb (limit_at cursor) 0 || is_empty (page_at cursor)) ≡ true → checked left ≡ none
      stopped_break stop =
          ap checked (empty_window batch_size (remaining to_sequence cursor) _ positive stop)
          ∙ Linked-verify_chain_from p w.previous [] tt

      short_break :
          ltb (length (page_at cursor)) (limit_at cursor) ≡ true
          → (read cursor w).first_break ≡ checked left
      short_break short =
          read_first_break cursor w
          ∙ ap checked
              (sym (window_short batch_size (remaining to_sequence cursor) _ (ltb→lt _ _ short)))

      broken_break : {b : ChainBreak} → (read cursor w).first_break ≡ some b → checked left ≡ some b
      broken_break broken =
          ap checked (window_page batch_size (remaining to_sequence cursor) _ _ refl)
          ∙ verify_chain_from-append_break p w.previous (page_at cursor) _
              (sym (read_first_break cursor w) ∙ broken)

      abbrev next_left : List AuditLogEntry
      next_left =
          window (remaining to_sequence (cursor_after cursor (page_at cursor)))
            (rows_from (cursor_after cursor (page_at cursor)) log)

      fine_break :
          next_sequence w.previous ≡ cursor
          → ltb (length (page_at cursor)) (limit_at cursor) ≡ false
          → (read cursor w).first_break ≡ none
          → verify_chain_from p (read cursor w).previous next_left ≡ checked left
      fine_break q full fine = sym (
          ap checked (rest_of_window cursor w q full fine)
          ∙ verify_chain_from-append p w.previous (page_at cursor) _
              (sym (read_first_break cursor w) ∙ fine)
          ∙ ap (λ o. verify_chain_from p o next_left) (sym (read_previous cursor w)))

    pub walk_loop-Walked :
        (fuel cursor : ℕ) (w : Walk)
        → w.first_break ≡ none
        → next_sequence w.previous ≡ cursor
        → length (rows_from cursor log) < fuel
        → Walked fuel cursor w
    walk_loop-Walked zero cursor w h q l = absurd (omega arith)
    walk_loop-Walked (suc fuel) cursor w h q l =
        let next = walk_loop-Walked fuel (cursor_after cursor (page_at cursor)) (read cursor w) in
        elim (Bool-cases (eqb (limit_at cursor) 0 || is_empty (page_at cursor))) [
          | inl stop ↦
              (w, loop_stops fuel cursor w (rw (h, stop)), h ∙ sym (stopped_break cursor w stop))
          | inr going ↦ elim (Bool-cases (ltb (length (page_at cursor)) (limit_at cursor))) [
            | inl short ↦ (
              read cursor w,
              loop_ends fuel cursor w (rw (h, going)) short,
              short_break cursor w short,
            )
            | inr full ↦ elim (Option-cases (read cursor w).first_break) [
              | inl fine ↦
                  let q' =
                    ap next_sequence (read_previous cursor w)
                    ∙ next_sequence-cursor_after w.previous cursor (page_at cursor) q in
                  let n = next fine q' (omega (arith, full_page cursor going full)) in
                  (
                    n.0,
                    loop_goes_on fuel cursor w (rw (h, going)) full ∙ n.1,
                    n.2 ∙ fine_break cursor w q full fine,
                  )
              | inr (b, broken) ↦ (
                read cursor w,
                loop_goes_on fuel cursor w (rw (h, going)) full
                    ∙ broken_stays fuel (cursor_after cursor (page_at cursor)) (read cursor w)
                        (omega (arith, full_page cursor going full)) broken,
                broken ∙ sym (broken_break cursor w broken),
              )
            ]
          ]
        ]
