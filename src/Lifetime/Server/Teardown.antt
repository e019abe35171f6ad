-- ===== src/Lifetime/Server/Teardown.antt =====
-- The destructor of libdill/src/server_netio.cpp and the thread of the server, in any order of their
-- turns: what they may run into, what is freed, and that the destructor comes to its end.
use dill.Lifetime.{
  Pointer, unset, null, live, deleted, delete, release_socket, access, release, non_null, IsOwned,
  release_socket-IsOwned,
}
use dill.Lifetime.Server.{
  ServerLife, join, owner_turn, free_rest, Owner, in_use, exiting, unworked, stopping, joined,
  destroyed, Body, begins, tests, runs, leaves, ended, is_ended,
}
use dill.Base.{◌≡◌, refl, ◌∙◌, ◌⊎◌, inl, inr, true, ok, Bool-cases}
use dill.Lifetime.Server.Memory.{Memory, Loop, IsSound, ends}
use dill.Server.Safety.Invariant.{Safe}

pub free_rest-Safe :
    (l : ServerLife)
    → Memory joined l
    → free_rest l
      ≡ ok (record l {
        client_socket = null;
        acceptor = null;
        server_socket = null;
        iosvc = null;
        owner = destroyed;
      })
unfolding free_rest Memory release_socket release non_null access delete
free_rest-Safe l ((io, ss, cs, ac), t, x) =
    rw (io, cs, release_socket-IsOwned l.acceptor ac, ss) refl

-- The destructor leaves alone what holds where the thread is.
Loop-owner :
    (b : Body) (l m : ServerLife)
    → m.server ≡ l.server
    → (m.acceptor ≡ l.acceptor) ⊎ (is_ended b ≡ true)
    → Loop b l
    → Loop b m
unfolding Loop is_ended
Loop-owner begins l m e (inl f) v = rw (e, f) v
Loop-owner begins l m e (inr f) v = cc
Loop-owner tests l m e f v = rw e v
Loop-owner runs l m e f v = rw e v
Loop-owner leaves l m e f v = rw e v
Loop-owner ended l m e f v = rw e v

work-IsOwned : (p : Pointer) → IsOwned p → (q : Pointer) × (delete p ≡ ok q)
unfolding IsOwned delete
work-IsOwned unset h = absurd h
work-IsOwned null h = (null, refl)
work-IsOwned live h = (deleted, refl)
work-IsOwned deleted h = absurd h

pub owner_turn-Safe :
    (at : Owner) (l : ServerLife)
    → l.owner ≡ at
    → Memory at l
    → Loop l.body l
    → Safe IsSound (owner_turn l)
unfolding owner_turn Memory access non_null join release delete
owner_turn-Safe in_use l e (h, t, o) v =
    ends (record l { sig_exit = true; owner = exiting }) (rw e refl)
      (record { loop = Loop-owner l.body l _ refl (inl refl) v; memory = (h, t, o, refl) })
owner_turn-Safe exiting l e (h, t, o, x) v =
    let (q, freed) = work-IsOwned l.iowork o in
    ends (record l { iowork = q; owner = unworked }) (rw (e, h.0, freed) refl)
      (record { loop = Loop-owner l.body l _ refl (inl refl) v; memory = (h, t, x) })
owner_turn-Safe unworked l e (h, t, x) v =
    ends (record l { stopped = true; owner = stopping }) (rw (e, h.0) refl)
      (record { loop = Loop-owner l.body l _ refl (inl refl) v; memory = (h, t, x, refl) })
owner_turn-Safe stopping l e (h, t, x, y) v = elim (Bool-cases (is_ended l.body)) [
  | inl z ↦
      ends (record l { thread = null; owner = joined }) (rw (e, t, z) refl)
        (record { loop = Loop-owner l.body l _ refl (inl refl) v; memory = (h, refl, z) })
  | inr z ↦ ends l (rw (e, t, z) refl) (record { loop = v; memory = rw e (h, t, x, y) })
]
owner_turn-Safe joined l e (h, t, x) v =
    ends
      (record l {
        client_socket = null;
        acceptor = null;
        server_socket = null;
        iosvc = null;
        owner = destroyed;
      })
      (last ∙ free_rest-Safe l (h, t, x))
      (record {
        loop = Loop-owner l.body l _ refl (inr x) v;
        memory = (refl, refl, refl, refl, t, x);
      })
  where
    last : owner_turn l ≡ free_rest l
    last = rw e refl
owner_turn-Safe destroyed l e m v = ends l (rw e refl) (record { loop = v; memory = rw e m })
