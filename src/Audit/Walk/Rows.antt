-- ===== src/Audit/Walk/Rows.antt =====
-- The rows of a log behind a cursor, and the window of them that a walk reads.
use verixa.Prelude.{
  ℕ, zero, suc, ◌+◌, ◌-◌, ◌≤◌, ◌<◌, min, true, List, [], ◌∷◌, ◌++◌, Option, none, some, ◌≡◌, refl,
  sym, ap, ◌∙◌, arith, leb, eqb, length, take, drop, filter, take-append-drop, take-add, take_all,
  inl, inr, Bool-cases, ◌||◌,
}
use mathlib.Core.Option
use verixa.Audit.Entry.{AuditLogEntry, next_sequence}
use verixa.Audit.Entry.Chain.{last_from}
use verixa.Audit.Walk.{cursor_after, last_of, remaining, page_limit, is_empty}

-- Rows by ascending sequence, none below a bound: the unique index of the table, in its order.
abbrev pub Ascending : ℕ → List AuditLogEntry → Type 0
Ascending bound [] = Unit
Ascending bound (e ∷ log) = (bound ≤ e.sequence) × Ascending (e.sequence + 1) log

-- The rows that a window with an upper end may hold.
abbrev pub window : Option ℕ → List AuditLogEntry → List AuditLogEntry
window none rows = rows
window (some n) rows = take n rows

abbrev pub rows_from : ℕ → List AuditLogEntry → List AuditLogEntry
rows_from cursor log = filter (λ e. leb cursor e.sequence) log

pub rows_from_all :
    (cursor bound : ℕ) (log : List AuditLogEntry)
    → cursor ≤ bound
    → Ascending bound log
    → rows_from cursor log ≡ log
rows_from_all cursor bound [] h s = refl
rows_from_all cursor bound (e ∷ log) h s = ground (arith, rows_from_all cursor (e.sequence + 1) log)

pub rows_from-Ascending :
    (cursor bound : ℕ) (log : List AuditLogEntry)
    → Ascending bound log
    → Ascending cursor (rows_from cursor log)
rows_from-Ascending cursor bound [] s = tt
rows_from-Ascending cursor bound (e ∷ log) s = elim (Bool-cases (leb cursor e.sequence)) [
  | inl keep ↦
      rw (keep, Ascending, filter)
        (ground arith, rw (rows_from_all cursor (e.sequence + 1) log (ground arith) s.1) s.1)
  | inr drop ↦ rw (drop, filter) (rows_from-Ascending cursor (e.sequence + 1) log s.1)
]

pub rows_from-rows_from :
    (low high : ℕ) (log : List AuditLogEntry)
    → low ≤ high
    → rows_from high (rows_from low log) ≡ rows_from high log
rows_from-rows_from low high [] h = refl
rows_from-rows_from low high (e ∷ log) h = ground (arith, rows_from-rows_from low high log)

pub le-cursor_after :
    (bound n : ℕ) (rows : List AuditLogEntry)
    → Ascending bound rows
    → bound ≤ cursor_after bound (take n rows)
le-cursor_after bound zero rows s = omega arith
le-cursor_after bound (suc n) [] s = omega arith
le-cursor_after bound (suc n) (e ∷ rows) s =
    omega (arith, s.0, le-cursor_after (e.sequence + 1) n rows s.1)

pub rows_from-cursor_after :
    (bound n : ℕ) (rows : List AuditLogEntry)
    → Ascending bound rows
    → rows_from (cursor_after bound (take n rows)) rows ≡ drop n rows
rows_from-cursor_after bound zero rows s = rows_from_all bound bound rows (omega arith) s
rows_from-cursor_after bound (suc n) [] s = refl
rows_from-cursor_after bound (suc n) (e ∷ rows) s = ground (
  arith,
  le-cursor_after (e.sequence + 1) n rows s.1,
  rows_from-cursor_after (e.sequence + 1) n rows s.1,
)

-- The rows of the next page are those behind the present one.
pub next_rows :
    (cursor bound n : ℕ) (log : List AuditLogEntry)
    → Ascending bound log
    → rows_from (cursor_after cursor (take n (rows_from cursor log))) log
      ≡ drop n (rows_from cursor log)
next_rows cursor bound n log s =
    let rows = rows_from cursor log in
    let ascending = rows_from-Ascending cursor bound log s in
    sym (
      rows_from-rows_from cursor (cursor_after cursor (take n rows)) log
        (le-cursor_after cursor n rows ascending))
    ∙ rows_from-cursor_after cursor n rows ascending

pub next_sequence-cursor_after :
    (previous : Option AuditLogEntry) (cursor : ℕ) (page : List AuditLogEntry)
    → next_sequence previous ≡ cursor
    → next_sequence (last_from previous page) ≡ cursor_after cursor page
next_sequence-cursor_after previous cursor [] h = h
next_sequence-cursor_after previous cursor (e ∷ page) h =
    next_sequence-cursor_after (some e) (e.sequence + 1) page refl

pub last_of-last_from :
    (previous : Option AuditLogEntry) (page : List AuditLogEntry)
    → last_of previous page ≡ last_from previous page
last_of-last_from previous [] = refl
last_of-last_from previous (e ∷ page) = last_of-last_from (some e) page

-- The window is the page and the window that is left.
pub window_page :
    (batch_size : ℕ) (left : Option ℕ) (rows : List AuditLogEntry) (less : Option ℕ)
    → less ≡ Option.map (λ n. n - page_limit batch_size left) left
    → window left rows
      ≡ take (page_limit batch_size left) rows
        ++ window less (drop (page_limit batch_size left) rows)
window_page batch_size none rows less e = rw e (sym (take-append-drop batch_size rows))
window_page batch_size (some n) rows less e =
    let m = min batch_size n in
    let split : n ≡ m + (n - m) = omega arith in
    rw e (ap (λ k. take k rows) split ∙ take-add m (n - m) rows)

pub take_longer :
    (n m : ℕ) (rows : List AuditLogEntry) → length (take m rows) < m → m ≤ n → take n rows ≡ rows
take_longer zero m rows h l = absurd (omega arith)
take_longer (suc n) zero rows h l = absurd (omega arith)
take_longer (suc n) (suc m) [] h l = refl
take_longer (suc n) (suc m) (e ∷ rows) h l = rw (take_longer n m rows (omega arith) (omega arith))

-- A short page is the whole window.
pub window_short :
    (batch_size : ℕ) (left : Option ℕ) (rows : List AuditLogEntry)
    → length (take (page_limit batch_size left) rows) < page_limit batch_size left
    → window left rows ≡ take (page_limit batch_size left) rows
window_short batch_size none rows h = sym (take_all batch_size rows h)
window_short batch_size (some n) rows h =
    let all = take_all (min batch_size n) rows h in
    take_longer n (min batch_size n) rows h (omega arith) ∙ sym all

pub remaining_less :
    (to_sequence : Option ℕ) (cursor n : ℕ)
    → remaining to_sequence (cursor + n) ≡ Option.map (λ k. k - n) (remaining to_sequence cursor)
remaining_less none cursor n = refl
remaining_less (some to) cursor n = ap some (omega arith)

pub window-nil : (left : Option ℕ) → window left [] ≡ []
window-nil none = refl
window-nil (some zero) = refl
window-nil (some (suc n)) = refl

pub take_empty :
    (n : ℕ) (rows : List AuditLogEntry) → 0 < n → is_empty (take n rows) ≡ true → rows ≡ []
take_empty zero rows l h = absurd (omega arith)
take_empty (suc n) [] l h = refl
take_empty (suc n) (e ∷ rows) l h = cc

pub empty_window :
    (batch_size : ℕ) (left : Option ℕ) (rows : List AuditLogEntry)
    → 1 ≤ batch_size
    → (eqb (page_limit batch_size left) 0 || is_empty (take (page_limit batch_size left) rows))
      ≡ true
    → window left rows ≡ []
empty_window zero left rows b h = absurd (omega arith)
empty_window (suc k) none rows b h = take_empty (suc k) rows (omega arith) (ground arith)
empty_window (suc k) (some zero) rows b h = refl
empty_window (suc k) (some (suc n)) rows b h =
    rw (take_empty (min (suc k) (suc n)) rows (omega arith) (ground arith))
