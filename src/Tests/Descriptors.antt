-- ===== src/Tests/Descriptors.antt =====
-- src/fdmanager.cpp at small inputs: every descriptor is a socket, in a table of two entries.
use tigerkin.Prelude.{
  ℕ, ◌≡◌, ◌⊎◌, inl, Bool, true, false, Option, none, some, [], ◌∷◌, arith, ◌==◌, if◌then◌else◌,
}
use tigerkin.Prelude.Bytes.{ℤ, pos}
use tigerkin.FdManager.{FdEntity, FdManager, returns, out_of_bounds, new_entity, add, get, del}
use tigerkin.FdManager.Table.{known, Fits, add_lem, get_del_lem}

abbrev sockets : ℤ → Option Bool
sockets fd = some true

abbrev blocking : ℤ → Bool
blocking fd = false

abbrev two_entries : FdManager
two_entries = record { entities = none ∷ some (new_entity sockets blocking (pos 1)) ∷ [] }

-- Three is one and a half times two.
add_lem_example :
    (Fits 3 two_entries
      × (n : FdManager) × (add sockets blocking (pos 3) two_entries
          ≡ returns (new_entity sockets blocking (pos 3)) n)
      × ((i : ℕ)
          → known n i
            ≡ (if i == 3 then some (new_entity sockets blocking (pos 3)) else known two_entries i)))
    ⊎ ((¬ Fits 3 two_entries) × (add sockets blocking (pos 3) two_entries ≡ out_of_bounds))
add_lem_example = add_lem sockets blocking 3 two_entries

get_del_lem_example :
    ((e : FdEntity) × (n : FdManager) × (get sockets blocking (pos 1) true two_entries
        ≡ returns (some e) n)
      × ((b : Bool) → get sockets blocking (pos 1) b n ≡ returns (some e) n)
      × ((i : ℕ) → known n i ≡ (if i == 1 then some e else known two_entries i)))
    × ((n : FdManager) × (del (pos 1) two_entries ≡ returns tt n)
        × (get sockets blocking (pos 1) false n ≡ returns none n)
        × ((i : ℕ) → known n i ≡ (if i == 1 then none else known two_entries i)))
get_del_lem_example = get_del_lem sockets blocking 1 two_entries (inl (omega arith))
