-- ===== src/Engine/Bus/Fanout.antt =====
-- Publishing on the bus: backend/src/engine/events.ts.
use background_job_runner.Prelude.{
  ℕ, ◌≡◌, refl, ◌∙◌, sym, Bool, true, false, ◌&&◌, List, [], ◌∷◌, ◌++◌, map, filter, ◌==◌,
  if◌then◌else◌, append-nil, append_assoc,
}
use background_job_runner.Types.Events.{EngineEvent}
use background_job_runner.Engine.Bus.{Bus, Listener, deliver, emit, publish}

abbrev pub called_on : EngineEvent → Listener → Bool
called_on e l = l.channel == e.user_id

abbrev pub call_of : EngineEvent → Listener → ℕ × EngineEvent
call_of e l = (l.token, e)

-- The bus after one listener.
abbrev visited : EngineEvent → Listener → Bool → Bool → Bus → Bus
visited e l called throws bus =
    let delivered = record bus { delivered = bus.delivered ++ (l.token, e) ∷ [] } in
    if called
    then if throws
      then record delivered { reported = bus.reported ++ (l.token, e) ∷ [] }
      else delivered
    else bus

-- `fs` and `gs` are what the rest of the listeners add.
pub record Added (e : EngineEvent) (fs gs : List Listener) (bus bus' : Bus) : Type 0 where
  pub delivered : bus'.delivered ≡ bus.delivered ++ map (call_of e) fs
  pub reported : bus'.reported ≡ bus.reported ++ map (call_of e) gs
  pub listeners : bus'.listeners ≡ bus.listeners
  pub next_token : bus'.next_token ≡ bus.next_token

-- The bus after the given listeners have been called.
abbrev pub IsFanout : EngineEvent → List Listener → Bus → Bus → Type 0
IsFanout e ls = Added e (filter (called_on e) ls) (filter (λ l. called_on e l && l.throws e) ls)

Added-visited :
    (e : EngineEvent) (l : Listener) (called throws : Bool) (fs gs : List Listener) (bus bus' : Bus)
    → Added e fs gs (visited e l called throws bus) bus'
    → Added e (if called then l ∷ fs else fs) (if called && throws then l ∷ gs else gs) bus bus'
Added-visited e l true true fs gs bus bus' a = record {
  delivered = a.delivered ∙ append_assoc bus.delivered ((l.token, e) ∷ []) (map (call_of e) fs);
  reported = a.reported ∙ append_assoc bus.reported ((l.token, e) ∷ []) (map (call_of e) gs);
  listeners = a.listeners;
  next_token = a.next_token;
}
Added-visited e l true false fs gs bus bus' a = record {
  delivered = a.delivered ∙ append_assoc bus.delivered ((l.token, e) ∷ []) (map (call_of e) fs);
  reported = a.reported;
  listeners = a.listeners;
  next_token = a.next_token;
}
Added-visited e l false throws fs gs bus bus' a = a

emit-IsFanout :
    (e : EngineEvent) (ls : List Listener) (bus : Bus) → IsFanout e ls bus (emit e ls bus)
unfolding emit deliver
emit-IsFanout e [] bus = record {
  delivered = sym (append-nil bus.delivered);
  reported = sym (append-nil bus.reported);
  listeners = refl;
  next_token = refl;
}
emit-IsFanout e (l ∷ ls) bus =
    Added-visited e l (called_on e l) (l.throws e) (filter (called_on e) ls)
      (filter (λ k. called_on e k && k.throws e) ls) bus (emit e (l ∷ ls) bus)
      (emit-IsFanout e ls (visited e l (called_on e l) (l.throws e) bus))

-- Publishing calls every subscriber of the event's user once, in the order in which they subscribed,
-- and no other, also when some of them throw; those that throw are reported, and all stay subscribed.
pub publish-IsFanout : (bus : Bus) (e : EngineEvent) → IsFanout e bus.listeners bus (publish bus e)
unfolding publish
publish-IsFanout bus e = emit-IsFanout e bus.listeners bus
