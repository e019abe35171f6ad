-- ===== src/Tests/Agents.antt =====
-- The threads around a log agent (libdill/src/log.cpp) at concrete input.
use dill.Lifetime.{unset, live, null, deleted, access, delete, non_null}
use dill.Lifetime.Agent.{
  AgentLife, new_life, initialise, begin_stop, owner_turn, body_turn, is_base, initialises,
  constructs, in_use, exiting, cancelled, begins, starts, runs, Turn, Turns, here, turn, by_owner,
  by_body,
}
use dill.Lifetime.Agent.Races.{Race}
use dill.Lifetime.Agent.Faults.{faults_lem}
use dill.Lifetime.Agent.Happens.{races_lem}
use dill.Lifetime.Agent.Ends.{stop_ends, Freed, turns, Remaining, aborts}
use dill.Agent.{DillLogAgent, new_agent, on_started}
use dill.Client.{new_client, start, connecting, async_connect}
use dill.Tests.Runs.{publish_parcel}
use dill.Base.{
  ◌≡◌, refl, ◌⊎◌, false, [], ◌∷◌, null_string, out_of_bounds, unset_pointer, pure_virtual_call,
  Result, ok, err, ◌>>=◌,
}

-- What the memory of the agent happens to hold.
abbrev junk : DillLogAgent
junk = new_agent (97 ∷ []) (new_client 5299 [] [] [])

abbrev life0 : AgentLife
life0 = new_life junk 5299 (49 ∷ []) [] []

unfoldable life_of : Result AgentLife → AgentLife
life_of (ok l) = l
life_of (err e) = life0

abbrev by_owner_of : AgentLife → AgentLife
by_owner_of l = life_of (owner_turn (97 ∷ []) l)

abbrev by_body_of : AgentLife → AgentLife
by_body_of l = life_of (body_turn l)

-- The agent is destroyed before its thread has begun.
abbrev early : AgentLife
early = by_owner_of (by_owner_of (by_owner_of life0))

runs_early : Turns (97 ∷ []) life0 early
unfolding life_of owner_turn new_life initialise begin_stop non_null
runs_early = turn (turn (turn here (by_owner refl)) (by_owner refl)) (by_owner refl)

faults_early : Turn (97 ∷ []) early (err unset_pointer)
unfolding life_of owner_turn new_life initialise begin_stop non_null delete
faults_early = by_owner refl

faults_lem_example :
    (unset_pointer ≡ null_string) ⊎ (unset_pointer ≡ out_of_bounds) ⊎ Race early unset_pointer
faults_lem_example =
    faults_lem (97 ∷ []) junk 5299 (49 ∷ []) [] [] unset_pointer runs_early faults_early

races_lem_example :
    ((l : AgentLife) × Turns (97 ∷ []) life0 l
      × Turn (97 ∷ []) l (err unset_pointer)
      × (l.owner ≡ exiting)
      × (l.body ≡ begins))
    × ((l : AgentLife) × Turns (97 ∷ []) life0 l
        × Turn (97 ∷ []) l (err pure_virtual_call)
        × (l.owner ≡ constructs)
        × (l.body ≡ starts))
    × ((l : AgentLife) × Turns (97 ∷ []) life0 l
        × Turn (97 ∷ []) l (err unset_pointer)
        × (l.owner ≡ initialises)
        × (l.body ≡ runs))
races_lem_example = races_lem publish_parcel (97 ∷ []) junk 5299 (49 ∷ []) [] []

-- The agent is destroyed while its thread waits for the connection.
abbrev waiting : AgentLife
waiting = by_body_of (by_body_of (by_body_of (by_owner_of (by_owner_of life0))))

abbrev stopped : AgentLife
stopped = by_owner_of (by_owner_of (by_owner_of waiting))

stops : Turns (97 ∷ []) life0 stopped
unfolding life_of owner_turn body_turn new_life new_client start initialise new_agent begin_stop
    non_null delete access is_base on_started async_connect
stops =
    turn
      (turn
        (turn
          (turn
            (turn (turn (turn (turn here (by_owner refl)) (by_owner refl)) (by_body refl))
              (by_body refl))
            (by_body refl))
          (by_owner refl))
        (by_owner refl))
      (by_owner refl)

abbrev aborted : dill.Lifetime.Agent.Outcome
aborted = record { success = false; bytes = [] }

abbrev last : Result AgentLife
last =
    dill.Lifetime.Agent.complete publish_parcel connecting aborted
      (dill.Lifetime.Agent.with_io (record stopped.agent.io { pending = [] }) stopped)
    >>= turns (97 ∷ []) 1

remaining : Remaining (97 ∷ []) stopped last
unfolding life_of owner_turn body_turn new_life new_client start initialise new_agent begin_stop
    non_null delete access is_base on_started async_connect
remaining = aborts publish_parcel [] [] connecting aborted refl refl refl refl

stop_ends_example : (m : AgentLife) × (last ≡ ok m) × Freed m
unfolding life_of owner_turn body_turn new_life new_client start initialise new_agent begin_stop
    non_null delete access is_base on_started async_connect
stop_ends_example = stop_ends (97 ∷ []) junk 5299 (49 ∷ []) [] [] stops refl remaining
