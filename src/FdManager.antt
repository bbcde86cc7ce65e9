-- ===== src/FdManager.antt =====
-- src/fdmanager.h and src/fdmanager.cpp: what the hooks know of a descriptor, and the table of
-- descriptors. A descriptor is an int; a null pointer in the table is `none`. What the system says of
-- a descriptor is a parameter: fstat fails, or says whether it is a socket; `nonblocking` is the flag
-- that F_GETFL reads. The table holds fewer than 2^31 entries. A call of the manager is one step.
pub mod Table
use tigerkin.Prelude.{
  ℕ, suc, zero, ◌+◌, ◌-◌, ◌*◌, ◌/◌, ◌^◌, Bool, true, false, not, ◌&&◌, Option, none, some, List, [],
  ◌∷◌, ◌++◌, ltb, leb, if◌then◌else◌, length, get_elem?, set, tabulate, ◌==◌,
}
use tigerkin.Prelude.Bytes.{ℤ, pos, negsuc}

pub record FdEntity : Type 0 where
  pub is_init : Bool
  pub is_sys_nonblock : Bool
  pub is_user_nonblock : Bool
  pub is_socket : Bool
  pub is_closed : Bool
  pub fd : ℤ
  pub recv_timeout : ℕ
  pub send_timeout : ℕ
  pub connect_timeout : ℕ
  pub timer : Option ℕ

pub record FdManager : Type 0 where
  pub entities : List (Option FdEntity)

-- A call returns, or indexes the table outside of it.
pub data Answer (A : Type 0) : Type 0 where
  returns : A → FdManager → Answer A
  out_of_bounds : Answer A

-- FdEntity::getConnectTimeout; `configured` is the configured number.
pub get_connect_timeout : ℕ → FdEntity → ℕ
get_connect_timeout configured e = if leb e.connect_timeout 0 then configured else e.connect_timeout

-- FdManager::FdManager.
pub empty_manager : FdManager
empty_manager = record { entities = tabulate (λ _. none) 0 60 }

-- The size that `add` gives to a table of `n` entries, by doubles cut to whole numbers.
pub new_size : ℕ → ℕ → ℕ
new_size n fd = if ltb (2 * fd) (3 * n) then 3 * n / 2 else fd

-- m_data.resize: new entries are null, and a smaller size cuts the table.
pub grow : ℕ → List (Option FdEntity) → List (Option FdEntity)
grow n xs = xs ++ tabulate (λ _. none) 0 (n - length xs)

-- FdManager::del.
pub del : ℤ → FdManager → Answer (Unit {0})
del (negsuc _) m = out_of_bounds
del (pos fd) m =
    if leb (length m.entities) fd
    then returns tt m
    else returns tt (record { entities = set m.entities fd none })

module _ (fstat : ℤ → Option Bool) (nonblocking : ℤ → Bool) where
  -- FdEntity::init: the entity it leaves, and whether it has set O_NONBLOCK on the descriptor.
  pub init : FdEntity → FdEntity × Bool
  init e =
      let socket : Bool = elim (fstat e.fd) [ none ↦ false | some s ↦ s ] in
      let known : Bool = elim (fstat e.fd) [ none ↦ false | some _ ↦ true ] in
      if e.is_init then (e, false) else (
        record e {
          recv_timeout = 2 ^ 64 - 1;
          send_timeout = 2 ^ 64 - 1;
          is_init = known;
          is_socket = socket;
          is_sys_nonblock = socket;
          is_closed = false;
          is_user_nonblock = false;
        },
        socket && not (nonblocking e.fd),
      )

  -- FdEntity::FdEntity.
  pub new_entity : ℤ → FdEntity
  unfolding init
  new_entity fd =
      (init (record {
        is_init = false;
        is_sys_nonblock = false;
        is_user_nonblock = false;
        is_socket = false;
        is_closed = false;
        fd = fd;
        recv_timeout = 0;
        send_timeout = 0;
        connect_timeout = 0;
        timer = none;
      })).0

  -- The table of `add` when the descriptor is to be put into it.
  pub room_for : ℕ → FdManager → List (Option FdEntity)
  unfolding new_size grow
  room_for fd m =
      if leb (length m.entities) fd
      then grow (new_size (length m.entities) fd) m.entities
      else m.entities

  -- FdManager::add.
  pub add : ℤ → FdManager → Answer FdEntity
  unfolding new_entity room_for
  add (negsuc _) m = out_of_bounds
  add (pos fd) m =
      if ltb fd (length (room_for fd m))
      then returns (new_entity (pos fd))
          (record { entities = set (room_for fd m) fd (some (new_entity (pos fd))) })
      else out_of_bounds

  -- FdManager::get, where a missing entity is made on demand.
  pub added : Answer FdEntity → Answer (Option FdEntity)
  added (returns e m) = returns (some e) m
  added out_of_bounds = out_of_bounds

  pub get : ℤ → Bool → FdManager → Answer (Option FdEntity)
  unfolding add added
  get (negsuc _) auto_create m = out_of_bounds
  get (pos fd) auto_create m = elim (get_elem? m.entities fd) [
    | none ↦ if auto_create then added (add (pos fd) m) else returns none m
    | some none ↦ if auto_create then added (add (pos fd) m) else returns none m
    | some (some e) ↦ returns (some e) m
  ]
