-- ===== src/Renewal/Channel.antt =====
-- The task of `watch_lease_events` in renewal.rs and the channel of 16 events that its `LeaseWatcher`
-- reads, as a step relation: the scheduler, the server and the client choose the next step.
use vault_client_rs.Prelude.{
  ℕ, zero, suc, ◌+◌, ◌≤◌, ◌<◌, ◌≡◌, ◌≢◌, refl, ap, Bool, true, false, List, [], ◌∷◌, ◌++◌, length,
  arith, length-append,
}
use vault_client_rs.Prelude.Text.{Text}
use vault_client_rs.Renewal.{LeaseEvent, renewed, error, expired}

abbrev pub capacity : ℕ
capacity = 16

-- Where the task is: in the sleep or the call of a `select!` with the cancellation, in the `send` of
-- events (with whether the loop ends after them), or past its loop.
pub data Phase : Type 0 where
  asleep : Phase
  renewing : Phase
  pushing : List LeaseEvent → Bool → Phase
  finished : Phase

pub record Watcher : Type 0 where
  pub phase : Phase
  pub cancelled : Bool
  pub channel : List LeaseEvent

pub data TaskStep (lease : Text) : Watcher → Watcher → Type 0 where
  wake : {w : Watcher} → w.phase ≡ asleep → TaskStep lease w (record w { phase = renewing })
  cancel_asleep :
      {w : Watcher}
      → w.phase ≡ asleep
      → w.cancelled ≡ true
      → TaskStep lease w (record w { phase = finished })
  granted :
      {w : Watcher} (ttl : ℕ)
      → w.phase ≡ renewing
      → TaskStep lease w (record w { phase = pushing (renewed lease ttl ∷ []) false })
  refused :
      {w : Watcher} (e : Text)
      → w.phase ≡ renewing
      → TaskStep lease w (record w { phase = pushing (error lease e ∷ expired lease ∷ []) true })
  cancel_renewing :
      {w : Watcher}
      → w.phase ≡ renewing
      → w.cancelled ≡ true
      → TaskStep lease w (record w { phase = finished })
  -- `tx.send(event).await` waits for room, and does not look at the cancellation
  push :
      {w : Watcher} (e : LeaseEvent) (es : List LeaseEvent) (ends : Bool)
      → w.phase ≡ pushing (e ∷ es) ends
      → length w.channel < capacity
      → TaskStep lease w (record w { phase = pushing es ends; channel = w.channel ++ e ∷ [] })
  next_round :
      {w : Watcher} → w.phase ≡ pushing [] false → TaskStep lease w (record w { phase = asleep })
  leave :
      {w : Watcher} → w.phase ≡ pushing [] true → TaskStep lease w (record w { phase = finished })

pub data TaskRun (lease : Text) (v : Watcher) : Watcher → Type 0 where
  here : TaskRun lease v v
  then : {w x : Watcher} → TaskRun lease v w → TaskStep lease w x → TaskRun lease v x

abbrev pub start : Watcher
start = record { phase = asleep; cancelled = false; channel = [] }

-- `shutdown` cancels the task and waits until it has finished. It owns the receiver meanwhile, so
-- nothing is received.
abbrev pub shut_down : Watcher → Watcher
shut_down w = record w { cancelled = true }

-- The task is in a `send`, and the channel is full.
pub record IsBlocked (w : Watcher) : Type 0 where
  pub event : LeaseEvent
  pub events : List LeaseEvent
  pub ends : Bool
  pub sends : w.phase ≡ pushing (event ∷ events) ends
  pub full : capacity ≤ length w.channel

blocked-TaskStep : (lease : Text) (w x : Watcher) → IsBlocked w → TaskStep lease w x → ⊥
blocked-TaskStep lease w x b (wake p) = cc (b.sends, p)
blocked-TaskStep lease w x b (cancel_asleep p c) = cc (b.sends, p)
blocked-TaskStep lease w x b (granted ttl p) = cc (b.sends, p)
blocked-TaskStep lease w x b (refused e p) = cc (b.sends, p)
blocked-TaskStep lease w x b (cancel_renewing p c) = cc (b.sends, p)
blocked-TaskStep lease w x b (push e es ends p room) = omega (arith, b.full)
blocked-TaskStep lease w x b (next_round p) = cc (b.sends, p)
blocked-TaskStep lease w x b (leave p) = cc (b.sends, p)

blocked-TaskRun : (lease : Text) (w x : Watcher) → IsBlocked w → TaskRun lease w x → x ≡ w
blocked-TaskRun lease w x b here = refl
blocked-TaskRun lease w x b (then {w = v} r s) =
    let e = blocked-TaskRun lease w v b r in absurd (blocked-TaskStep lease v x (rw e b) s)

-- The events of n renewals that nobody has read.
abbrev pub unread : Text → ℕ → List LeaseEvent
unread lease zero = []
unread lease (suc n) = unread lease n ++ renewed lease 0 ∷ []

length-unread : (lease : Text) (n : ℕ) → length (unread lease n) ≡ n
length-unread lease zero = refl
length-unread lease (suc n) =
    omega (arith, length-append (unread lease n) (renewed lease 0 ∷ []), length-unread lease n)

abbrev filled : Text → ℕ → Watcher
filled lease n = record { phase = asleep; cancelled = false; channel = unread lease n }

-- The task before the `send` of one renewal more.
abbrev pub sending_next : Text → ℕ → Watcher
sending_next lease n = record {
  phase = pushing (renewed lease 0 ∷ []) false;
  cancelled = false;
  channel = unread lease n;
}

start-TaskRun : (lease : Text) (n : ℕ) → n ≤ capacity → TaskRun lease start (filled lease n)
start-TaskRun lease zero le = here
start-TaskRun lease (suc n) le =
    then
      (then (then (then (start-TaskRun lease n (omega arith)) (wake refl)) (granted 0 refl))
        (push (renewed lease 0) [] false refl (omega (arith, length-unread lease n))))
      (next_round refl)

-- `shutdown` may wait for ever. After sixteen renewals that the client has not read, the task can come
-- to the `send` of one more; from there, once `shutdown` has cancelled the task, the task never
-- finishes, whatever steps it takes.
pub shut_down-hangs :
    (lease : Text) (x : Watcher)
    → TaskRun lease (shut_down (sending_next lease capacity)) x
    → TaskRun lease start (sending_next lease capacity) × (x.phase ≢ finished)
shut_down-hangs lease x r = (
  then (then (start-TaskRun lease capacity (omega arith)) (wake refl)) (granted 0 refl),
  (λ e.
      let b : IsBlocked (shut_down (sending_next lease capacity)) = record {
        event = renewed lease 0;
        events = [];
        ends = false;
        sends = refl;
        full = omega (arith, length-unread lease capacity);
      } in
      cc (e, ap (λ (w : Watcher). w.phase) (blocked-TaskRun lease _ x b r))),
)

-- The channel has room for the events that the task is about to send.
abbrev pub HasRoom : ℕ → Phase → Type 0
HasRoom used asleep = Unit
HasRoom used renewing = Unit
HasRoom used (pushing es ends) = length es + used ≤ capacity
HasRoom used finished = Unit

from_pushing :
    (lease : Text) (v : Watcher) (es sent : List LeaseEvent) (ends : Bool)
    → length es + length sent ≤ capacity
    → TaskRun lease v (record { phase = pushing es ends; cancelled = true; channel = sent })
    → (x : Watcher) × TaskRun lease v x × (x.phase ≡ finished)
from_pushing lease v [] sent true h r = (_, then r (leave refl), refl)
from_pushing lease v [] sent false h r =
    (_, then (then r (next_round refl)) (cancel_asleep refl refl), refl)
from_pushing lease v (e ∷ es) sent ends h r =
    from_pushing lease v es (sent ++ e ∷ []) ends (omega (arith, length-append sent (e ∷ [])))
      (then r (push e es ends refl (omega arith)))

-- With room in the channel for what the task is about to send, the task can finish after `shutdown`
-- has cancelled it, wherever it is.
pub shut_down-finishes :
    (lease : Text) (p : Phase) (stopping : Bool) (sent : List LeaseEvent)
    → HasRoom (length sent) p
    → let w : Watcher = record { phase = p; cancelled = stopping; channel = sent } in
      (x : Watcher) × TaskRun lease (shut_down w) x × (x.phase ≡ finished)
shut_down-finishes lease asleep stopping sent h = (_, then here (cancel_asleep refl refl), refl)
shut_down-finishes lease renewing stopping sent h = (_, then here (cancel_renewing refl refl), refl)
shut_down-finishes lease (pushing es ends) stopping sent h =
    from_pushing lease _ es sent ends h here
shut_down-finishes lease finished stopping sent h = (_, here, refl)
