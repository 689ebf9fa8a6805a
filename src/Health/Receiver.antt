-- ===== src/Health/Receiver.antt =====
-- The reporter's channel and the receiver of internal/health/health.go.
use Prim.Native.Nat.{Ordering}
use Prim.Native.String.{compare}
use morsel.Prelude.{
  ℕ, Bool, true, false, not, ◌&&◌, List, [], ◌∷◌, ◌++◌, String, if◌then◌else◌, length, ltb, Assoc,
  insert,
}

pub record StatusUpdate : Type 0 where
  pub component : String
  pub critical : Bool
  pub healthy : Bool
  pub reason : String
  pub updated_at : ℕ

-- What a reporter's component says of itself each time.
pub record Component : Type 0 where
  pub name : String
  pub critical : Bool

-- The channel's buffer, and the state by the component's name.
pub record Receiver : Type 0 where
  pub channel : List StatusUpdate
  pub state : Assoc StatusUpdate

abbrev pub capacity : ℕ
capacity = 32

unfoldable pub new_reporter : Receiver
new_reporter = record { channel = []; state = [] }

abbrev pub update_of : Component → Bool → String → StatusUpdate
update_of c healthy reason = record {
  component = c.name;
  critical = c.critical;
  healthy = healthy;
  reason = reason;
  updated_at = 0;
}

-- A report is dropped where the buffer is full.
unfoldable pub report : Component → Bool → String → Receiver → Receiver
report c healthy reason r =
    if ltb (length r.channel) capacity
    then record r { channel = r.channel ++ update_of c healthy reason ∷ [] }
    else r

unfoldable pub new_component : String → Bool → Receiver → Receiver × Component
unfolding report
new_component name critical r =
    let c : Component = record { name = name; critical = critical } in
    (report c false "initializing" r, c)

abbrev pub keep : ℕ → StatusUpdate → Assoc StatusUpdate → Assoc StatusUpdate
keep now u state = insert u.component (record u { updated_at = now }) state

-- One turn of the loop of Run, which waits while the buffer is empty.
unfoldable pub receive : ℕ → Receiver → Receiver
receive now r = elim r.channel [
  | [] ↦ r
  | u ∷ rest ↦ record { channel = rest; state = keep now u r.state }
]

abbrev pub is_failing : StatusUpdate → Bool
is_failing u = u.critical && not u.healthy

abbrev pub all_ready : Assoc StatusUpdate → Bool
all_ready [] = true
all_ready ((name, u) ∷ rows) = let rest = all_ready rows in if is_failing u then false else rest

abbrev before : String → String → Bool
before s t = elim (compare s t) [ Ordering.lt ↦ true | _ ↦ false ]

unfoldable pub insert_sorted : StatusUpdate → List StatusUpdate → List StatusUpdate
insert_sorted u [] = u ∷ []
insert_sorted u (v ∷ rest) =
    let more = insert_sorted u rest in
    if before v.component u.component then v ∷ more else u ∷ v ∷ rest

unfoldable pub sort_updates : List StatusUpdate → List StatusUpdate
unfolding insert_sorted
sort_updates [] = []
sort_updates (u ∷ rest) = insert_sorted u (sort_updates rest)

abbrev pub rows_of : Assoc StatusUpdate → List StatusUpdate
rows_of [] = []
rows_of ((name, u) ∷ rows) = u ∷ rows_of rows

-- Whether the service is ready, and the components by their names.
unfoldable pub read : Receiver → Bool × List StatusUpdate
unfolding sort_updates
read r = elim r.state [
  | [] ↦ (false, [])
  | row ∷ rows ↦ (all_ready (row ∷ rows), sort_updates (rows_of (row ∷ rows)))
]

unfoldable pub readyz_handler : Receiver → ℕ
unfolding read
readyz_handler r = if (read r).0 then 200 else 503
