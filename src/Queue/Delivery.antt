-- ===== src/Queue/Delivery.antt =====
-- What `SelectNextMessage` and `SetVisibility` do to a table of messages
-- (internal/queue/queries/messages.sql.go of cmd/morsel-ctrl-plane).
use mathlib.Core.List.{not-mem-nil, mem-cons, Mem, mem-cons_self, mem-cons_of_mem}
use mathlib.Core.Logic.Or
use mathlib.Core.Bool.{Bool-set, false≢true}
use morsel.Prelude.{
  ℕ, ◌≤◌, ◌≡◌, refl, inl, inr, ◌≢◌, subst, sym, ap, Bool, true, false, List, [], ◌∷◌, Option, none,
  some, String, All, arith, eq_iff, Bool-cases, leb, str_eq, if◌then◌else◌, ◌∙◌,
}
use morsel.Queue.Tables.{MessageRow, is_visible, earlier, select_next_message, set_visibility}

-- No visible row was enqueued before `k`.
abbrev pub NoneBefore : ℕ → ℕ → List MessageRow → Type 0
NoneBefore now k rows = All (λ x. is_visible now x ≡ true → k ≤ x.enqueued_at) rows

abbrev pub NoneVisible : ℕ → List MessageRow → Type 0
NoneVisible now rows = All (λ x. is_visible now x ≡ false) rows

NoneBefore-le :
    (now k m : ℕ) (rows : List MessageRow) → k ≤ m → NoneBefore now m rows → NoneBefore now k rows
NoneBefore-le now k m [] h b = tt
NoneBefore-le now k m (x ∷ rows) h b =
    ((λ v. let p = b.0 v in omega arith), NoneBefore-le now k m rows h b.1)

NoneVisible-NoneBefore :
    (now k : ℕ) (rows : List MessageRow) → NoneVisible now rows → NoneBefore now k rows
NoneVisible-NoneBefore now k [] h = tt
NoneVisible-NoneBefore now k (x ∷ rows) h =
    ((λ v. ground arith), NoneVisible-NoneBefore now k rows h.1)

-- What the selection may return: nothing if no row is visible, or a visible row of the table that
-- is as old as any.
pub data Selected (now : ℕ) (rows : List MessageRow) (o : Option MessageRow) : Type 0 where
  idle : o ≡ none → NoneVisible now rows → Selected now rows o
  due :
      (r : MessageRow)
      → o ≡ some r
      → Mem r rows
      → is_visible now r ≡ true
      → NoneBefore now r.enqueued_at rows
      → Selected now rows o

select-visible :
    (now : ℕ) (x : MessageRow) (rows : List MessageRow) (o : Option MessageRow)
    → is_visible now x ≡ true
    → Selected now rows o
    → Selected now (x ∷ rows) (some (earlier x o))
unfolding earlier
select-visible now x rows o v (idle e h) =
    due x (rw e) mem-cons_self v
      ((λ w. omega arith), NoneVisible-NoneBefore now x.enqueued_at rows h)
select-visible now x rows o v (due r e m w b) =
    elim (Bool-cases (leb x.enqueued_at r.enqueued_at)) [
      | inl le ↦
          due x (rw (e, le)) mem-cons_self v (
            (λ w. omega arith),
            NoneBefore-le now x.enqueued_at r.enqueued_at rows (ground arith) b,
          )
      | inr gt ↦ due r (rw (e, gt)) (mem-cons_of_mem _ m) w ((λ w. ground arith), b)
    ]

select-invisible :
    (now : ℕ) (x : MessageRow) (rows : List MessageRow) (o : Option MessageRow)
    → is_visible now x ≡ false
    → Selected now rows o
    → Selected now (x ∷ rows) o
select-invisible now x rows o v (idle e h) = idle e (v, h)
select-invisible now x rows o v (due r e m w b) =
    due r e (mem-cons_of_mem _ m) w ((λ u. ground arith), b)

pub select_next_message-Selected :
    (now : ℕ) (rows : List MessageRow) → Selected now rows (select_next_message now rows)
unfolding select_next_message
select_next_message-Selected now [] = idle refl tt
select_next_message-Selected now (x ∷ rows) =
    let ih = select_next_message-Selected now rows in
    elim (Bool-cases (is_visible now x)) [
      | inl v ↦ rw (v) (select-visible now x rows _ v ih)
      | inr v ↦ rw (v) (select-invisible now x rows _ v ih)
    ]

-- Until the time `u` no row of the id `i` is visible.
abbrev pub Held : ℕ → String → List MessageRow → Type 0
Held u i rows = All (λ x. x.id ≡ i → (now : ℕ) → now ≤ u → is_visible now x ≡ false) rows

pub set_visibility-Held :
    (u : ℕ) (i : String) (rows : List MessageRow) → Held u i (set_visibility u i rows)
unfolding set_visibility is_visible
set_visibility-Held u i [] = tt
set_visibility-Held u i (x ∷ rows) =
    ((λ e now h. ground (arith, eq_iff x.id i)), set_visibility-Held u i rows)

keep_row :
    (u t : ℕ) (i : String) (x : MessageRow) (b : Bool)
    → (b ≡ true → x.id ≢ i)
    → (x.id ≡ i → (now : ℕ) → now ≤ u → is_visible now x ≡ false)
    → (if b then record x { visibility_until = some t } else x).id ≡ i
    → (now : ℕ) → now ≤ u
    → is_visible now (if b then record x { visibility_until = some t } else x) ≡ false
keep_row u t i x true ne h e now le = absurd (ne refl e)
keep_row u t i x false ne h e now le = h e now le

-- A claim of another message leaves this one held.
pub set_visibility-Held_ne :
    (u t : ℕ) (i j : String) (rows : List MessageRow)
    → i ≢ j
    → Held u i rows
    → Held u i (set_visibility t j rows)
unfolding set_visibility
set_visibility-Held_ne u t i j [] ne h = tt
set_visibility-Held_ne u t i j (x ∷ rows) ne h = (
  keep_row u t i x (str_eq x.id j) (λ hit e. ne (sym e ∙ (eq_iff x.id j).0 hit)) h.0,
  set_visibility-Held_ne u t i j rows ne h.1,
)

Held-mem :
    (u now : ℕ) (i : String) (rows : List MessageRow) {r : MessageRow}
    → now ≤ u
    → Held u i rows
    → Mem r rows
    → r.id ≡ i
    → is_visible now r ≡ false
Held-mem u now i [] le h m e = absurd (not-mem-nil m)
Held-mem u now i (x ∷ rows) {r} le h m e =
    Or.elim (Bool-set _ _) (mem-cons.0 m) (λ p. rw p (h.0 (subst (λ y. y.id ≡ i) p e) now le))
      (λ k. Held-mem u now i rows le h.1 k e)

-- A held message is not handed out again.
pub select_next_message-not-Held :
    (u now : ℕ) (i : String) (rows : List MessageRow) {r : MessageRow}
    → now ≤ u
    → Held u i rows
    → select_next_message now rows ≡ some r
    → r.id ≢ i
select_next_message-not-Held u now i rows {r} le h e same =
    elim (select_next_message-Selected now rows) [
      | idle n _ ↦ cc
      | due s p m v _ ↦
          let there = ap (λ (y : MessageRow). y.id) (let q : s ≡ r = cc in q) ∙ same in
          false≢true (sym (Held-mem u now i rows le h m there) ∙ v)
    ]
