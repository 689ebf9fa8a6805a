-- ===== src/Queue/Keys.antt =====
-- The ids of a message table are distinct, and what its statements do to the stored sizes.
use morsel.Prelude.{
  ℕ, ◌+◌, ◌≡◌, refl, sym, subst, false, List, [], ◌∷◌, ◌++◌, Option, some, String, arith, eq_iff,
  str_eq, any, Bool-cases, inl, inr,
}
use morsel.Queue.Tables.{MessageRow, has_id, delete_message, get_message_body_size, set_visibility}
use morsel.Queue.Moves.{Move, keep, append, hide, drop, clear}
use morsel.Queue.Quota.{bytes_of}

abbrev pub UniqueIds : List MessageRow → Type 0
UniqueIds [] = Unit
UniqueIds (x ∷ rows) = (any (has_id x.id) rows ≡ false) × UniqueIds rows

pub bytes_of-set_visibility :
    (u : ℕ) (i : String) (rows : List MessageRow)
    → bytes_of (set_visibility u i rows) ≡ bytes_of rows
unfolding set_visibility
bytes_of-set_visibility u i [] = refl
bytes_of-set_visibility u i (x ∷ rows) = ground (arith, bytes_of-set_visibility u i rows)

delete_message-absent :
    (i : String) (rows : List MessageRow)
    → any (has_id i) rows ≡ false
    → delete_message i rows ≡ rows
unfolding delete_message
delete_message-absent i [] h = refl
delete_message-absent i (x ∷ rows) h = ground (arith, delete_message-absent i rows)

pub bytes_of-delete_message :
    (i : String) (rows : List MessageRow) (n : ℕ)
    → UniqueIds rows
    → get_message_body_size i rows ≡ some n
    → bytes_of (delete_message i rows) + n ≡ bytes_of rows
unfolding delete_message get_message_body_size
bytes_of-delete_message i [] n u h = ground arith
bytes_of-delete_message i (x ∷ rows) n u h = elim (Bool-cases (str_eq x.id i)) [
  | inl hit ↦
      let gone =
        delete_message-absent i rows
          (subst (λ k. any (has_id k) rows ≡ false) ((eq_iff x.id i).0 hit) u.0) in
      ground (arith, gone)
  | inr miss ↦ ground (arith, bytes_of-delete_message i rows n u.1)
]

pub any-set_visibility :
    (u : ℕ) (i k : String) (rows : List MessageRow)
    → any (has_id k) (set_visibility u i rows) ≡ any (has_id k) rows
unfolding set_visibility
any-set_visibility u i k [] = refl
any-set_visibility u i k (x ∷ rows) = ground (arith, any-set_visibility u i k rows)

set_visibility-UniqueIds :
    (u : ℕ) (i : String) (rows : List MessageRow)
    → UniqueIds rows
    → UniqueIds (set_visibility u i rows)
unfolding set_visibility
set_visibility-UniqueIds u i [] h = tt
set_visibility-UniqueIds u i (x ∷ rows) h =
    (ground (arith, any-set_visibility u i x.id rows), set_visibility-UniqueIds u i rows h.1)

pub any-delete_message :
    (i k : String) (rows : List MessageRow)
    → any (has_id k) rows ≡ false
    → any (has_id k) (delete_message i rows) ≡ false
unfolding delete_message
any-delete_message i k [] h = refl
any-delete_message i k (x ∷ rows) h = ground (arith, any-delete_message i k rows)

delete_message-UniqueIds :
    (i : String) (rows : List MessageRow) → UniqueIds rows → UniqueIds (delete_message i rows)
unfolding delete_message
delete_message-UniqueIds i [] h = tt
delete_message-UniqueIds i (x ∷ rows) h =
    ground (arith, any-delete_message i x.id rows h.0, delete_message-UniqueIds i rows h.1)

pub any-append :
    (k : String) (rows : List MessageRow) (r : MessageRow)
    → any (has_id k) rows ≡ false
    → str_eq r.id k ≡ false
    → any (has_id k) (rows ++ r ∷ []) ≡ false
any-append k [] r h e = ground arith
any-append k (x ∷ rows) r h e = ground (arith, any-append k rows r)

append-UniqueIds :
    (rows : List MessageRow) (r : MessageRow)
    → any (has_id r.id) rows ≡ false
    → UniqueIds rows
    → UniqueIds (rows ++ r ∷ [])
append-UniqueIds [] r f h = (refl, tt)
append-UniqueIds (x ∷ rows) r f h = (
  any-append x.id rows r h.0 (ground (arith, eq_iff x.id r.id, eq_iff r.id x.id)),
  append-UniqueIds rows r (ground arith) h.1,
)

-- The primary key: every move keeps the ids of a table distinct.
pub Move-UniqueIds :
    {fresh : Option String} {clock : ℕ} (rows rows' : List MessageRow)
    → Move fresh clock rows rows'
    → UniqueIds rows
    → UniqueIds rows'
Move-UniqueIds rows rows' (keep e) h = subst UniqueIds (sym e) h
Move-UniqueIds rows rows' (append r _ f _ e) h =
    subst UniqueIds (sym e) (append-UniqueIds rows r f h)
Move-UniqueIds rows rows' (hide t r _ e) h =
    subst UniqueIds (sym e) (set_visibility-UniqueIds t r.id rows h)
Move-UniqueIds rows rows' (drop i e) h = subst UniqueIds (sym e) (delete_message-UniqueIds i rows h)
Move-UniqueIds rows rows' (clear e) h = subst UniqueIds (sym e) tt
