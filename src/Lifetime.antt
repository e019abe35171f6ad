-- ===== src/Lifetime.antt =====
-- What libdill/src allocates with `new` and deletes again while one thread runs its event loop and
-- another runs the destructor: pointers, with what they point to.
pub mod Server
pub mod Agent
use dill.Base.{
  ℕ, zero, suc, ◌+◌, ◌-◌, ◌*◌, ◌/◌, ◌%◌, ◌^◌, ◌≤◌, ◌<◌, min, ◌≡◌, refl, sym, ap, ◌∙◌, subst, ◌≢◌,
  ◌↔◌, ◌⊎◌, inl, inr, Bool, true, false, not, ◌&&◌, ◌||◌, Option, none, some, List, [], ◌∷◌, ◌++◌,
  map, append-nil, append_assoc, arith, Bytes, u16, u32, c_str, overwrite, Fault, use_after_free,
  null_string, out_of_bounds, Result, ok, err, ◌>>=◌, or_fault, invert, length-overwrite,
  take-overwrite, ltb, leb, ◌==◌, if◌then◌else◌, ==_iff, ==_refl, Bool-cases, Option-cases, dec_le,
  dec_lt, ℕ_discrete, not-==, bytes_eq, bytes_eq→eq, bytes_eq_refl, bytes_eq_sym, length, get_elem?,
  set, take, drop, replicate, length-replicate, length-append, length-take, length-drop, take_all,
  length-set, get_elem?-lt, get_elem?-ge, get_elem?-none, get_elem?-append_left,
  get_elem?-append_last, get_elem?-some, length-map, get_elem?-map, All, All-append, All-set,
  All-get_elem?, All-map, set_insert, set_erase, contains, All-set_insert, All-set_erase, IsOrdered,
  set_insert-IsOrdered, set_erase-IsOrdered, contains-set_insert, contains-set_erase, StringMap,
  map_put, map_find, map_find-map_put, unset_pointer, null_pointer,
}

-- The memory that a pointer member points to. A member that no constructor initialises is unset.
pub data Pointer : Type 0 where
  unset null live deleted : Pointer

-- The test of a pointer in a condition.
unfoldable pub non_null : Pointer → Bool
non_null unset = true
non_null null = false
non_null live = true
non_null deleted = true

-- A use of what the pointer points to.
unfoldable pub access : {A : Type 0} → Pointer → A → Result A
access unset a = err unset_pointer
access null a = err null_pointer
access live a = ok a
access deleted a = err use_after_free

-- `delete`; of a null pointer it does nothing.
unfoldable pub delete : Pointer → Result Pointer
delete unset = err unset_pointer
delete null = ok null
delete live = ok deleted
delete deleted = err use_after_free

-- `if (p) { delete p; p = 0; }`
unfoldable pub release : Pointer → Result Pointer
release p = if non_null p then (delete p >>= λ p. ok null) else ok p

-- The same of a socket or an acceptor, which is closed first and belongs to an `io_service`.
unfoldable pub release_socket : Pointer → Pointer → Result Pointer
release_socket iosvc p =
    if non_null p then (access p tt >>= λ _. access iosvc tt >>= λ _. release p) else ok p

-- A pointer that may be deleted: null or to what is there.
unfoldable pub IsOwned : Pointer → Type 0
IsOwned unset = ⊥
IsOwned null = Unit {0}
IsOwned live = Unit {0}
IsOwned deleted = ⊥

pub release-IsOwned : (p : Pointer) → IsOwned p → release p ≡ ok null
unfolding IsOwned release non_null delete
release-IsOwned unset h = absurd h
release-IsOwned null h = refl
release-IsOwned live h = refl
release-IsOwned deleted h = absurd h

pub release_socket-IsOwned : (p : Pointer) → IsOwned p → release_socket live p ≡ ok null
unfolding IsOwned release_socket release non_null delete access
release_socket-IsOwned unset h = absurd h
release_socket-IsOwned null h = refl
release_socket-IsOwned live h = refl
release_socket-IsOwned deleted h = absurd h
