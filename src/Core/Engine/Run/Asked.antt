-- ===== src/Core/Engine/Run/Asked.antt =====
-- Events in which each execution follows the policy's leave, and actions that keep this.
use auk.Base.{◌≡◌, ◌⊎◌, true, false, List, [], ◌∷◌, Option, some}
use auk.Base.Text.{Bytes}
use auk.Base.Result.{Result, ok, err}
use auk.Core.Model.{KeyValue, ProtocolKind, Environment}
use auk.Core.Chaining.{ChainState}
use auk.Core.Engine.Request.{ResolvedRequest}
use auk.Core.Engine.Run.{
  Request, Response, allow, deny, broken, HistoryEntry, Event, asked, executed, captured, saved,
  recorded, EngineError, World, Act, Services, after, ◌>>=◌, lift,
}

module _ {A : Type 0} where
  -- The last event is the policy's leave for this method and URL.
  abbrev pub AskedFor : ResolvedRequest A → List (Event A) → Type 0
  AskedFor r [] = ⊥
  AskedFor r (asked dc allow ∷ events) = (dc.method ≡ r.method) × (dc.url ≡ r.url)
  AskedFor r (asked dc (deny _) ∷ events) = ⊥
  AskedFor r (asked dc (broken _) ∷ events) = ⊥
  AskedFor r (executed _ _ ∷ events) = ⊥
  AskedFor r (captured _ _ ∷ events) = ⊥
  AskedFor r (saved _ ∷ events) = ⊥
  AskedFor r (recorded _ ∷ events) = ⊥

  -- Each execution directly follows the policy's leave for it.
  abbrev pub EachAsked : List (Event A) → Type 0
  EachAsked [] = Unit
  EachAsked (executed _ r ∷ events) = AskedFor r events × EachAsked events
  EachAsked (asked _ _ ∷ events) = EachAsked events
  EachAsked (captured _ _ ∷ events) = EachAsked events
  EachAsked (saved _ ∷ events) = EachAsked events
  EachAsked (recorded _ ∷ events) = EachAsked events

  -- The entry tells of this response, to this request as it was resolved.
  pub record Tells (req : Request A) (r : ResolvedRequest A) (resp : Response)
      (entry : HistoryEntry) : Type 0 where
    pub response_id : entry.id ≡ resp.request_id
    pub request_id : entry.request_id ≡ req.id
    pub request_name : entry.request_name ≡ req.name
    pub method : entry.method ≡ r.method
    pub url : entry.url ≡ r.url
    pub status : entry.status ≡ resp.status
    pub timing_ms : entry.timing_ms ≡ resp.timing_ms
    pub timestamp : entry.timestamp ≡ resp.timestamp

  -- The last event is the execution of this request, or the capture of cookies behind it.
  abbrev pub SentLast : ProtocolKind → ResolvedRequest A → List (Event A) → Type 0
  SentLast kind r events =
      (rest : List (Event A)) × ((events ≡ executed kind r ∷ rest)
        ⊎ ((workspace : Bytes) × ((headers : List KeyValue) × (events
                ≡ captured workspace headers ∷ executed kind r ∷ rest))))

  -- The response was saved, and the history has taken the entry or has failed to.
  abbrev pub Recorded :
      Services A → HistoryEntry → Response → List (Event A) → List (Event A) → Type 0
  Recorded svc entry resp before events =
      ((svc.append_history entry ≡ true) × (events ≡ recorded entry ∷ saved resp ∷ before))
      ⊎ ((svc.append_history entry ≡ false) × (events ≡ saved resp ∷ before))

  -- The stored request was executed, as it was resolved; then its response was saved, and an entry that
  -- tells of both was given to the history.
  pub record OnRecord (svc : Services A) (request_id : Bytes) (resp : Response)
      (events : List (Event A)) : Type 0 where
    pub request : Request A
    pub stored : svc.get_request request_id ≡ ok request
    pub resolved : ResolvedRequest A
    pub entry : HistoryEntry
    pub before : List (Event A)
    pub tells : Tells request resolved resp entry
    pub sent : SentLast request.protocol resolved before
    pub ends : Recorded svc entry resp before events

  -- Where an action ends: each execution asked for, and a result with this property.
  abbrev pub Ends :
      {R : Type 0} → (R → List (Event A) → Type 0) → Result EngineError R × World A → Type 0
  Ends Q (ok r, w) = EachAsked w.events × Q r w.events
  Ends Q (err e, w) = EachAsked w.events × Unit

  abbrev pub Keeps : {R : Type 0} → (R → List (Event A) → Type 0) → Act A R → Type 0
  Keeps Q m = (w : World A) → EachAsked w.events → Ends Q (m w)

  abbrev pub Any : {R : Type 0} → R → List (Event A) → Type 0
  Any r events = Unit

  pub after-Ends :
      {R S : Type 0} (P : R → List (Event A) → Type 0) (Q : S → List (Event A) → Type 0)
      (o : Result EngineError R × World A) (k : R → Act A S)
      → Ends P o
      → ((r : R) (w : World A) → EachAsked w.events → P r w.events → Ends Q (k r w))
      → Ends Q (after o k)
  after-Ends P Q (ok r, w) k (h, p) rest = rest r w h p
  after-Ends P Q (err e, w) k h rest = h

  -- one action after another, the second whatever the first has made
  pub then-Keeps :
      {R S : Type 0} (Q : S → List (Event A) → Type 0) (m : Act A R) (k : R → Act A S)
      → Keeps Any m
      → ((r : R) → Keeps Q (k r))
      → Keeps Q (m >>= k)
  then-Keeps Q m k first rest w h = after-Ends Any Q (m w) k (first w h) (λ r v g _. rest r v g)

  pub lift-Keeps :
      {R : Type 0} (wrap : Bytes → EngineError) (r : Result Bytes R) → Keeps Any (lift wrap r)
  lift-Keeps wrap (ok r) w h = (h, tt)
  lift-Keeps wrap (err e) w h = (h, tt)

  -- The templater's own runs of other requests have each execution asked for.
  abbrev pub TemplaterAsks : Services A → Type 0
  TemplaterAsks svc =
      ((chain : ChainState) (req : Request A) (env : Option Environment)
        → Keeps Any (svc.resolve chain req env))
      × ((f : ChainState → Request A → Option Environment → A → Act A A)
          → svc.resolve_auth ≡ some f
          → (chain : ChainState) (req : Request A) (env : Option Environment) (auth : A)
          → Keeps Any (f chain req env auth))
