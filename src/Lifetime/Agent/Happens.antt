-- ===== src/Lifetime/Agent/Happens.antt =====
-- The races of the threads around a log agent (libdill/src/log.cpp, libdill/src/client_netio.cpp) happen.
use dill.Lifetime.{live, access, delete, non_null}
use dill.Lifetime.Agent.{
  AgentLife, constructs, initialises, exiting, begins, starts, runs, is_base, new_life, owner_turn,
  body_turn, begin_stop, initialise, Turn, by_owner, by_body, completes, Turns, here, turn, finish,
  complete, call_host, Outcome,
}
use dill.Agent.{DillLogAgent, on_started}
use dill.Client.{connecting, start, new_client, async_connect, on_connect_finished}
use dill.Protocol.{DillParcel}
use dill.Base.{ℕ, ◌≡◌, refl, true, [], Bytes, unset_pointer, pure_virtual_call, err}

-- `stop` comes before the first turn of the thread.
early_stop :
    (channel : Bytes) (junk : DillLogAgent) (port : ℕ) (addr rd_buf wt_buf : Bytes)
    → (l : AgentLife) × Turns channel (new_life junk port addr rd_buf wt_buf) l
      × Turn channel l (err unset_pointer)
      × (l.owner ≡ exiting)
      × (l.body ≡ begins)
unfolding new_life owner_turn initialise begin_stop non_null delete
early_stop channel junk port addr rd_buf wt_buf =
    let l₀ = new_life junk port addr rd_buf wt_buf in
    let l₁ = record l₀ { owner = initialises } in
    let l₂ = initialise channel l₁ in
    let l₃ = begin_stop l₂ in
    (
      l₃,
      turn (turn (turn here (by_owner refl)) (by_owner refl)) (by_owner refl),
      by_owner refl,
      refl,
      refl,
    )

-- The thread has two turns before the constructor of the base class returns.
early_call :
    (channel : Bytes) (junk : DillLogAgent) (port : ℕ) (addr rd_buf wt_buf : Bytes)
    → (l : AgentLife) × Turns channel (new_life junk port addr rd_buf wt_buf) l
      × Turn channel l (err pure_virtual_call)
      × (l.owner ≡ constructs)
      × (l.body ≡ starts)
unfolding new_life body_turn access is_base
early_call channel junk port addr rd_buf wt_buf =
    let l₀ = new_life junk port addr rd_buf wt_buf in
    (record l₀ { iowork = live; body = starts }, turn here (by_body refl), by_body refl, refl, refl)

-- The connection is made before the members of the agent are initialised.
early_connect :
    (parcel : DillParcel) (channel : Bytes) (junk : DillLogAgent) (port : ℕ)
    (addr rd_buf wt_buf : Bytes)
    → (l : AgentLife) × Turns channel (new_life junk port addr rd_buf wt_buf) l
      × Turn channel l (err unset_pointer)
      × (l.owner ≡ initialises)
      × (l.body ≡ runs)
unfolding new_life body_turn owner_turn access is_base on_started async_connect start new_client
    complete finish on_connect_finished call_host
early_connect parcel channel junk port addr rd_buf wt_buf =
    let l₀ = new_life junk port addr rd_buf wt_buf in
    let a = on_started l₀.agent in
    let connects : Outcome = record { success = true; bytes = [] } in
    (
      record l₀ { agent = a; iowork = live; owner = initialises; body = runs },
      turn (turn (turn (turn here (by_owner refl)) (by_body refl)) (by_body refl)) (by_body refl),
      completes parcel [] [] connecting connects refl refl refl,
      refl,
      refl,
    )

-- Whatever the arguments: there are turns after which the agent's destructor deletes a work object that
-- is not there yet, others after which the thread calls a pure virtual function, and others after
-- which a handler uses members of the agent that are not initialised.
pub races_lem :
    (parcel : DillParcel) (channel : Bytes) (junk : DillLogAgent) (port : ℕ)
    (addr rd_buf wt_buf : Bytes)
    → let start = new_life junk port addr rd_buf wt_buf in
      ((l : AgentLife) × Turns channel start l
        × Turn channel l (err unset_pointer)
        × (l.owner ≡ exiting)
        × (l.body ≡ begins))
      × ((l : AgentLife) × Turns channel start l
          × Turn channel l (err pure_virtual_call)
          × (l.owner ≡ constructs)
          × (l.body ≡ starts))
      × ((l : AgentLife) × Turns channel start l
          × Turn channel l (err unset_pointer)
          × (l.owner ≡ initialises)
          × (l.body ≡ runs))
races_lem parcel channel junk port addr rd_buf wt_buf = (
  early_stop channel junk port addr rd_buf wt_buf,
  early_call channel junk port addr rd_buf wt_buf,
  early_connect parcel channel junk port addr rd_buf wt_buf,
)
