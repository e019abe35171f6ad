-- ===== src/Subscriber/Rpc.antt =====
-- A question of the subscriber to the server and its answer (libdill/src/subscribe.cpp).
use dill.Client.{Upcall, on_connected, on_parcel_read, on_parcel_sent, on_io_error, is_connected}
use dill.Subscriber.{
  DillSubscriber, upcall, ask, wait, on_error, connected, parcel_read, parcel_sent, notify_one,
  dispatch, emit,
}
use dill.Base.{
  ℕ, suc, ◌≡◌, refl, sym, ap, ◌∙◌, inl, inr, Bool, true, false, not, none, some, List, [], ◌∷◌, All,
  subst, arith, Bytes, ◌==◌, if◌then◌else◌, ==_iff, Bool-cases,
}
use dill.Protocol.{DillParcel}
use dill.Protocol.Ops.{priority_availch, is_log, priority_register}
use dill.Server.Event.{DillEvent}

-- A call of the host that ends a question: an answer, or one of the three failures.
unfoldable pub answers : Upcall → Bool
answers (on_connected success) = not success
answers (on_parcel_read p) = p.op == priority_availch
answers (on_parcel_sent succeed) = not succeed
answers on_io_error = true

-- What the asking thread finds after that call: the count and the name of the answer, or 0 and the
-- empty name.
unfoldable pub answer : Upcall → ℕ × Bytes
answer (on_parcel_read p) = (p.timestamp1, p.str1)
answer (on_connected success) = (0, [])
answer (on_parcel_sent succeed) = (0, [])
answer on_io_error = (0, [])

abbrev pub is_answer : Upcall → Bool
is_answer (on_parcel_read p) = true
is_answer (on_connected success) = false
is_answer (on_parcel_sent succeed) = false
is_answer on_io_error = false

-- What the asking thread and the state are left with.
unfoldable pub Woken : Bool → Upcall → DillSubscriber → Type 0
Woken true call after =
    (after.waiting ≡ 0)
    × ((after.availch, after.chname) ≡ answer call)
    × (after.on_rpc ≡ not (is_answer call))
Woken false call after = (after.waiting ≡ 1) × (after.on_rpc ≡ true)

pub if-some : {A : Type 0} (b : Bool) (x y : A) → (if b then some x else none) ≡ some y → x ≡ y
if-some true x y e = cc
if-some false x y e = cc

pub asked_waits :
    (chidx : ℕ) (s asked : DillSubscriber) → ask chidx s ≡ some asked → asked.waiting ≡ s.waiting
unfolding ask
asked_waits chidx s asked h = ap waiting (sym (if-some (is_connected s.io) _ asked h))
  where
    waiting : DillSubscriber → ℕ
    waiting s = s.waiting

emit-waits :
    (ev : DillEvent) (s : DillSubscriber)
    → ((emit ev s).waiting ≡ s.waiting) × ((emit ev s).on_rpc ≡ s.on_rpc)
unfolding emit
emit-waits ev s = elim (Bool-cases s.evcb) [ inl e ↦ rw e (refl, refl) | inr e ↦ rw e (refl, refl) ]

dispatch-waits :
    (p : DillParcel) (s : DillSubscriber)
    → (p.op == priority_availch) ≡ false
    → ((dispatch p s).waiting ≡ s.waiting) × ((dispatch p s).on_rpc ≡ s.on_rpc)
unfolding dispatch
dispatch-waits p s n = elim (Bool-cases (is_log p.op)) [
  | inl e ↦ rw e (emit-waits _ s)
  | inr e ↦ elim (Bool-cases (p.op == priority_register)) [
    | inl r ↦ rw (e, r) (emit-waits _ s)
    | inr r ↦ rw (e, r, n) (refl, refl)
  ]
]

dispatch-answers :
    (p : DillParcel) (s : DillSubscriber)
    → p.op ≡ priority_availch
    → dispatch p s
      ≡ notify_one (record s { availch = p.timestamp1; chname = p.str1; on_rpc = false })
unfolding dispatch is_log
dispatch-answers p s e = rw e refl

-- A call of the host while one thread waits for an answer.
pub waiting_lem :
    (call : Upcall) (t : DillSubscriber)
    → t.waiting ≡ 1
    → t.on_rpc ≡ true
    → Woken (answers call) call (upcall call t)
unfolding answers answer Woken upcall connected on_error parcel_read parcel_sent notify_one
waiting_lem (on_connected true) t w on = (w, on)
waiting_lem (on_connected false) t w on = rw on (omega (arith, w), refl, refl)
waiting_lem (on_parcel_sent true) t w on = (w, on)
waiting_lem (on_parcel_sent false) t w on = rw on (omega (arith, w), refl, refl)
waiting_lem on_io_error t w on = rw on (omega (arith, w), refl, refl)
waiting_lem (on_parcel_read p) t w on = elim (Bool-cases (p.op == priority_availch)) [
  | inl e ↦
      rw (e, dispatch-answers p t ((==_iff p.op priority_availch).0 e))
        (omega (arith, w), refl, refl)
  | inr e ↦ let (a, b) = dispatch-waits p t e in rw (e, a, b) (w, on)
]

pub wait_lem :
    (call : Upcall) (t : DillSubscriber)
    → t.waiting ≡ 0
    → Woken (answers call) call (upcall call (wait t))
unfolding wait
wait_lem call t w = waiting_lem call (wait t) (ap suc w) refl

-- Calls of the host, one after another.
unfoldable pub upcalls : List Upcall → DillSubscriber → DillSubscriber
upcalls [] s = s
upcalls (call ∷ calls) s = upcalls calls (upcall call s)

-- None of the calls ends a question.
abbrev pub NoAnswers : List Upcall → Type 0
NoAnswers = All (λ call. answers call ≡ false)

upcalls-waits :
    (calls : List Upcall) (t : DillSubscriber)
    → t.waiting ≡ 1
    → t.on_rpc ≡ true
    → NoAnswers calls
    → ((upcalls calls t).waiting ≡ 1) × ((upcalls calls t).on_rpc ≡ true)
unfolding upcalls Woken
upcalls-waits [] t w on h = (w, on)
upcalls-waits (call ∷ calls) t w on h =
    let (w', on') : Woken false call (upcall call t) =
      subst (λ b. Woken b call (upcall call t)) h.0 (waiting_lem call t w on) in
    upcalls-waits calls (upcall call t) w' on' h.1

-- Of a client that is connected and on whose condition no thread waits, let one thread ask and then
-- wait. Every call of the host that ends a question wakes this thread, with the count and the name
-- of the answer when it is one, and with 0 and the empty name when it is a failure; after a failure
-- `_on_rpc` stays set. Every other call of the host leaves the thread waiting.
pub rpc_lem :
    (chidx : ℕ) (s asked : DillSubscriber) (call : Upcall)
    → ask chidx s ≡ some asked
    → s.waiting ≡ 0
    → Woken (answers call) call (upcall call (wait asked))
rpc_lem chidx s asked call h w = wait_lem call asked (asked_waits chidx s asked h ∙ w)

-- A client is connected, no thread waits on its condition, and one asks. When the answer is read
-- between the request and the wait, it is stored and nobody is woken by it. The thread that waits afterwards goes on waiting, whatever calls of the host follow, as long as
-- they are no answers and no failures; the first that is one, of another question or of none, wakes
-- the thread, with what that call brings.
pub lost_answer_lem :
    (chidx : ℕ) (s asked : DillSubscriber) (p : DillParcel) (calls : List Upcall) (call : Upcall)
    → ask chidx s ≡ some asked
    → s.waiting ≡ 0
    → p.op ≡ priority_availch
    → NoAnswers calls
    → let answered = upcall (on_parcel_read p) asked in
      let late = upcalls calls (wait answered) in
      (answered.availch ≡ p.timestamp1)
      × (answered.chname ≡ p.str1)
      × (late.waiting ≡ 1)
      × (late.on_rpc ≡ true)
      × Woken (answers call) call (upcall call late)
unfolding upcall parcel_read notify_one wait
lost_answer_lem chidx s asked p calls call h w e no_answers =
    let answered = upcall (on_parcel_read p) asked in
    let count : answered.availch ≡ p.timestamp1 = rw (dispatch-answers p asked e) refl in
    let name : answered.chname ≡ p.str1 = rw (dispatch-answers p asked e) refl in
    let idle : answered.waiting ≡ 0 =
      rw (dispatch-answers p asked e) (omega (arith, asked_waits chidx s asked h, w)) in
    let (waits, on) = upcalls-waits calls (wait answered) (ap suc idle) refl no_answers in
    (count, name, waits, on, waiting_lem call (upcalls calls (wait answered)) waits on)
