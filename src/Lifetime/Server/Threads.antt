-- ===== src/Lifetime/Server/Threads.antt =====
-- The two threads of a server (libdill/src/server_netio.cpp) in any order of their turns: what they may
-- run into, what is freed, and that the destructor comes to its end.
use dill.Lifetime.{live, delete, access}
use dill.Lifetime.Server.{
  ServerLife, new_life, complete, next_socket, Turn, by_owner, by_body, completes, registers, Turns,
  here, turn, in_use, Body, begins, tests, runs, leaves, ended, is_ended,
}
use dill.Server.State.{
  Pending, accepting, reading_length, reading_content, writing, disconnecting,
  register_event_callback,
}
use dill.Server.Safety.Invariant.{nobody, Safe, Inv, Safe-bind}
use dill.Server.Safety.Run.{Inv-take, handle-Safe, Allocates-pending}
use dill.Base.{
  ℕ, ◌≡◌, refl, sym, subst, ◌⊎◌, inl, inr, Bool, true, false, List, ◌∷◌, ◌++◌, Fault,
  use_after_free, null_string, out_of_bounds, null_pointer, unset_pointer, pure_virtual_call,
  Result, ok, err, ◌>>=◌,
}
use dill.Server.Loop.{NoWriteFails, Outcome, Allocates, handle}
use dill.Lifetime.Server.Memory.{
  Memory, Loop, new_life-IsSound, IsSound, body_turn-Safe, ends, Memory-Held, Memory-body,
}
use dill.Lifetime.Server.Teardown.{owner_turn-Safe}

pub next_socket-live : (op : Pending) (success : Bool) → next_socket op success live ≡ ok live
unfolding next_socket access delete
next_socket-live accepting true = refl
next_socket-live accepting false = refl
next_socket-live (reading_length conn) success = refl
next_socket-live (reading_content conn size) success = refl
next_socket-live (writing conn frame) success = refl
next_socket-live (disconnecting conn) success = refl

complete-Safe :
    (l : ServerLife) (before after : List Pending) (op : Pending) (o : Outcome)
    → IsSound l
    → l.body ≡ runs
    → l.server.pending ≡ before ++ (op ∷ after)
    → Allocates op o l.server
    → NoWriteFails op o
    → Safe IsSound
        (complete op o (record l { server = record l.server { pending = before ++ after } }))
unfolding complete access is_ended Loop
complete-Safe l before after op o v at split fresh q =
    let s = record l.server { pending = before ++ after } in
    let inv : Inv nobody l.server = subst (λ b. Loop b l) at v.loop in
    let on : is_ended l.body ≡ false = rw at refl in
    let (io, _, sock, _) = Memory-Held l.owner l on v.memory in
    Safe-bind (Inv nobody) IsSound (handle op o s)
      (λ s. next_socket op o.success l.client_socket >>= λ c.
        access l.iosvc (record l { server = s; client_socket = c; body = tests }))
      (handle-Safe op o s (Allocates-pending op o l.server (before ++ after) fresh) q
        (Inv-take l.server before after op split inv))
      (λ s' inv'.
        ends (record l { server = s'; client_socket = live; body = tests })
          (rw (sock, next_socket-live op o.success, io) refl)
          (record {
            loop = inv';
            memory = Memory-body l.owner l s' tests l.iowork live on (λ o. o) refl v.memory;
          }))

Loop-registers :
    (b : Body) (fn : Bool) (l : ServerLife)
    → Loop b l
    → Loop b (record l { server = register_event_callback fn l.server })
unfolding Loop register_event_callback
Loop-registers begins fn l (a, n, v) = (a, n, record { owned = v.owned; subscribed = v.subscribed })
Loop-registers tests fn l v = record { owned = v.owned; subscribed = v.subscribed }
Loop-registers runs fn l v = record { owned = v.owned; subscribed = v.subscribed }
Loop-registers leaves fn l v = record { owned = v.owned; subscribed = v.subscribed }
Loop-registers ended fn l v = v

Turn-Safe :
    {l : ServerLife} {r : Result ServerLife} → Turn NoWriteFails l r → IsSound l → Safe IsSound r
unfolding Memory
Turn-Safe {l} (by_owner e) v =
    subst (Safe IsSound) (sym e) (owner_turn-Safe l.owner l refl v.memory v.loop)
Turn-Safe {l} (by_body e) v =
    subst (Safe IsSound) (sym e) (body_turn-Safe l.body l refl v.loop v.memory)
Turn-Safe {l} (completes before after op o at _ split fresh q e) v =
    subst (Safe IsSound) (sym e) (complete-Safe l before after op o v at split fresh q)
Turn-Safe {l} (registers fn at e) v = ends _ e (record {
  loop = Loop-registers l.body fn l v.loop;
  memory =
      (let m : Memory in_use l = subst (λ o. Memory o l) at v.memory in
        subst (λ o. Memory o (record l { server = register_event_callback fn l.server })) (sym at)
          m);
})

pub Turns-IsSound : {l m : ServerLife} → Turns NoWriteFails l m → IsSound l → IsSound m
Turns-IsSound here v = v
Turns-IsSound (turn r one) v = Turn-Safe one (Turns-IsSound r v)

-- A fault that is none of memory: a null pointer as a string, or a read beyond a buffer.
Safe-fault :
    {A : Type 0} (P : A → Type 0) (r : Result A)
    → Safe P r
    → (fault : Fault) → r ≡ err fault
    → (fault ≡ null_string) ⊎ (fault ≡ out_of_bounds)
Safe-fault P r h use_after_free e = absurd (subst (Safe P) e h)
Safe-fault P r h null_string e = inl refl
Safe-fault P r h out_of_bounds e = inr refl
Safe-fault P r h null_pointer e = absurd (subst (Safe P) e h)
Safe-fault P r h unset_pointer e = absurd (subst (Safe P) e h)
Safe-fault P r h pure_virtual_call e = absurd (subst (Safe P) e h)

-- As long as no write fails, and however the turns of the server's thread and of its destructor
-- follow one another: neither uses or deletes anything that has been deleted or was never there. The
-- only faults of a turn are those of the handlers, a null pointer as a string and a read beyond a
-- buffer.
pub Turns-fault :
    (bound : Bool) (bufsize channels : ℕ) {l : ServerLife} {r : Result ServerLife}
    → Turns NoWriteFails (new_life bound bufsize channels) l
    → Turn NoWriteFails l r
    → (fault : Fault) → r ≡ err fault
    → (fault ≡ null_string) ⊎ (fault ≡ out_of_bounds)
Turns-fault bound bufsize channels {r = r} before next fault e =
    Safe-fault IsSound r
      (Turn-Safe next (Turns-IsSound before (new_life-IsSound bound bufsize channels))) fault e
