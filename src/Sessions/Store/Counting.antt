-- ===== src/Sessions/Store/Counting.antt =====
-- How many sessions of a user are active in a map, and how a write changes that.
use verixa.Prelude.{
  suc, ◌+◌, ◌≤◌, String, true, false, List, [], ◌∷◌, none, some, ◌≡◌, refl, arith, ◌==◌, eq_iff,
  leb, length, filter, All, Bool-cases, inl, inr,
}
use verixa.Prelude.Dict.{values, Dict, get, set, get-set}
use verixa.Sessions.Session.{Session}
use verixa.Sessions.Store.{Store, is_active_of, insert_by_age, sort_by_age, find_active_by_user_id}

abbrev pub actives : String → Dict Session → List Session
actives user_id m = filter (is_active_of user_id) (values m)

-- Each session stands under its own identifier, and no identifier stands twice.
abbrev pub IsMap : Dict Session → Type 0
IsMap [] = Unit
IsMap ((k, s) ∷ m) = (s.id ≡ k) × (get k m ≡ none) × IsMap m

pub set-IsMap : (s : Session) (m : Dict Session) → IsMap m → IsMap (set s.id s m)
unfolding set get
set-IsMap s [] h = (refl, refl, tt)
set-IsMap s ((k, t) ∷ m) h = elim (Bool-cases (k == s.id)) [
  | inl same ↦ rw (same, set) (refl, ground (arith, h.1, eq_iff k s.id), h.2)
  | inr other ↦
      rw (other, set)
        (
          h.0,
          ground (arith, h.1, get-set s.id k s m, eq_iff s.id k, eq_iff k s.id),
          set-IsMap s m h.2,
        )
]

-- A session in the list of an identifier's map is the one found under its identifier.
abbrev pub IsFound : String → Dict Session → Session → Type 0
IsFound user_id m s = (get s.id m ≡ some s) × (is_active_of user_id s ≡ true)

pub length-actives-set :
    (user_id : String) (s t : Session) (m : Dict Session)
    → get s.id m ≡ some s
    → is_active_of user_id s ≡ true
    → is_active_of user_id t ≡ false
    → length (actives user_id (set s.id t m)) + 1 ≡ length (actives user_id m)
unfolding get set
length-actives-set user_id s t [] f a b = ground arith
length-actives-set user_id s t ((k, v) ∷ m) f a b =
    ground (arith, f, length-actives-set user_id s t m)

pub length-actives-set_le :
    (user_id : String) (k : String) (t : Session) (m : Dict Session)
    → length (actives user_id (set k t m)) ≤ length (actives user_id m) + 1
unfolding set
length-actives-set_le user_id k t [] = ground arith
length-actives-set_le user_id k t ((j, v) ∷ m) = ground (arith, length-actives-set_le user_id k t m)

pub length-actives_le :
    (user_id : String) (m : Dict Session) → length (actives user_id m) ≤ length m
length-actives_le user_id [] = omega arith
length-actives_le user_id ((k, v) ∷ m) = ground (arith, length-actives_le user_id m)

length-insert_by_age :
    (s : Session) (l : List Session) → length (insert_by_age s l) ≡ suc (length l)
length-insert_by_age s [] = refl
length-insert_by_age s (t ∷ l) = ground (arith, length-insert_by_age s l)

length-sort_by_age : (l : List Session) → length (sort_by_age l) ≡ length l
length-sort_by_age [] = refl
length-sort_by_age (s ∷ l) =
    omega (arith, length-sort_by_age l, length-insert_by_age s (sort_by_age l))

module _ (P : Session → Type 0) where
  insert_by_age-All : (s : Session) (l : List Session) → P s → All P l → All P (insert_by_age s l)
  insert_by_age-All s [] p h = (p, tt)
  insert_by_age-All s (t ∷ l) p h = elim (Bool-cases (leb s.last_seen_at t.last_seen_at)) [
    | inl before ↦ rw (before, insert_by_age) (p, h)
    | inr behind ↦ rw (behind, insert_by_age) (h.0, insert_by_age-All s l p h.1)
  ]

  sort_by_age-All : (l : List Session) → All P l → All P (sort_by_age l)
  sort_by_age-All [] h = tt
  sort_by_age-All (s ∷ l) h = insert_by_age-All s (sort_by_age l) h.0 (sort_by_age-All l h.1)

All-map :
    (P Q : Session → Type 0) (l : List Session) → ((s : Session) → P s → Q s) → All P l → All Q l
All-map P Q [] f h = tt
All-map P Q (s ∷ l) f h = (f s h.0, All-map P Q l f h.1)

IsFound-behind :
    (user_id k : String) (v : Session) (m : Dict Session) (l : List Session)
    → get k m ≡ none
    → All (IsFound user_id m) l
    → All (IsFound user_id ((k, v) ∷ m)) l
unfolding get
IsFound-behind user_id k v m l n h =
    All-map (IsFound user_id m) (IsFound user_id ((k, v) ∷ m)) l
      (λ s f. (ground (arith, f.0, n, eq_iff k s.id), f.1)) h

actives-All :
    (user_id : String) (m : Dict Session) → IsMap m → All (IsFound user_id m) (actives user_id m)
unfolding get
actives-All user_id [] h = tt
actives-All user_id ((k, v) ∷ m) h =
    let behind = IsFound-behind user_id k v m (actives user_id m) h.1 (actives-All user_id m h.2) in
    elim (Bool-cases (is_active_of user_id v)) [
      | inl active ↦ rw (active, filter) ((ground (arith, h.0, eq_iff k v.id), active), behind)
      | inr idle ↦ rw (idle, filter) behind
    ]

-- The active sessions that the repository returns are in the map, and as many as there are.
pub find_active-All :
    (user_id : String) (st : Store)
    → IsMap st.sessions
    → All (IsFound user_id st.sessions) (find_active_by_user_id user_id st)
unfolding find_active_by_user_id
find_active-All user_id st h =
    sort_by_age-All (IsFound user_id st.sessions) (actives user_id st.sessions)
      (actives-All user_id st.sessions h)

pub length-find_active :
    (user_id : String) (st : Store)
    → length (find_active_by_user_id user_id st) ≡ length (actives user_id st.sessions)
unfolding find_active_by_user_id
length-find_active user_id st = length-sort_by_age (actives user_id st.sessions)
