-- ===== src/Network/Serving/Answers.antt =====
-- Which messages the loop of a server answers, and when it ends.
use private_billings.Prelude.{
  ℕ, suc, ◌+◌, ◌≡◌, refl, sym, ap, ◌∙◌, ◌⊎◌, inl, inr, Bool, not, ◌&&◌, Option, none, some, List,
  [], ◌∷◌, ◌++◌, Bool-cases, arith,
}
use mathlib.Core.List.{append_assoc}
use private_billings.Python.Raises.{Exc, Result, ok, err, result_cases}
use private_billings.Python.Dict.{Dict}
use private_billings.Network.{NodeInfo}
use private_billings.Network.Dispatch.{
  Bytes, Message, Incoming, Handler, Handlers, Effect, empty_reply, executed, scheduled, handler_of,
  verify_signature, dispatch, handle_message,
}
use private_billings.Network.Serving.{Arrival, recv, serve_one, serve, after}

-- The empty replies among some effects, and the handlers that are run in place of one.
abbrev pub empty_replies : {Content : Type 0} → List (Effect Content) → ℕ
empty_replies [] = 0
empty_replies (empty_reply ∷ effects) = suc (empty_replies effects)
empty_replies (executed h msg origin ∷ effects) = empty_replies effects
empty_replies (scheduled h msg origin ∷ effects) = empty_replies effects

abbrev pub left_to_handler : {Content : Type 0} → List (Effect Content) → ℕ
left_to_handler [] = 0
left_to_handler (empty_reply ∷ effects) = left_to_handler effects
left_to_handler (executed h msg origin ∷ effects) = suc (left_to_handler effects)
left_to_handler (scheduled h msg origin ∷ effects) = left_to_handler effects

abbrev pub seen_to : {Content : Type 0} → List (Effect Content) → ℕ
seen_to effects = empty_replies effects + left_to_handler effects

seen_to-append :
    {Content : Type 0} (a b : List (Effect Content)) → seen_to (a ++ b) ≡ seen_to a + seen_to b
seen_to-append [] b = omega arith
seen_to-append (empty_reply ∷ a) b = omega (arith, seen_to-append a b)
seen_to-append (executed h msg origin ∷ a) b = omega (arith, seen_to-append a b)
seen_to-append (scheduled h msg origin ∷ a) b = seen_to-append a b

abbrev one_if_some : {A : Type 0} → Result (Option A) → ℕ
one_if_some (ok (some a)) = 1
one_if_some (ok none) = 0
one_if_some (err x) = 0

module _ {Content : Type 0} (decode_incoming : Bytes → Result (Option (Incoming Content))) where
  -- The messages among some arrivals: what is decoded and is not passed over.
  abbrev pub messages : List Arrival → ℕ
  messages [] = 0
  messages ((none, members) ∷ arrivals) = messages arrivals
  messages ((some wire, members) ∷ arrivals) =
      one_if_some (decode_incoming wire) + messages arrivals

  messages-cons :
      (a : Arrival) (arrivals : List Arrival)
      → messages (a ∷ arrivals) ≡ messages (a ∷ []) + messages arrivals
  messages-cons (none, members) arrivals = omega arith
  messages-cons (some wire, members) arrivals = omega arith

module _ {Content : Type 0} (decode_incoming : Bytes → Result (Option (Incoming Content)))
    (decode : Bytes → Result (Message Content)) (has_signed : Bytes → Bytes → Bytes → Bool)
    (handlers : Handlers) where
  abbrev one : Arrival → List (Effect Content) × Result (Unit {0})
  one = serve_one decode_incoming decode has_signed handlers

  abbrev all : List Arrival → List (Effect Content) × Result (Unit {0})
  all = serve decode_incoming decode has_signed handlers

  dispatch-answers :
      (members : Dict NodeInfo) (h : Handler) (msg : Message Content) (valid : Bool)
      → seen_to ((dispatch decode has_signed members h msg valid).0) ≡ 1
  unfolding dispatch
  dispatch-answers members h msg valid = elim (Bool-cases (h.require_verification && not valid)) [
    | inl e ↦ rw (dispatch, e) refl
    | inr e ↦ elim (Bool-cases h.replies) [
      | inl r ↦ rw (dispatch, e, r) refl
      | inr r ↦ rw (dispatch, e, r) refl
    ]
  ]

  handle_message-answers :
      (members : Dict NodeInfo) (incoming : Incoming Content)
      → (handle_message decode has_signed members handlers incoming).1 ≡ ok tt
      → seen_to ((handle_message decode has_signed members handlers incoming).0) ≡ 1
  unfolding handle_message
  handle_message-answers members incoming fine =
      elim (result_cases (verify_signature decode has_signed members incoming)) [
        | inr (x, raised) ↦
            let failed : err x ≡ ok tt = rw (handle_message, raised) at fine in
            absurd (ground (arith, failed))
        | inl (checked, e) ↦
            rw (handle_message, e)
              (dispatch-answers members (handler_of handlers checked.0.type) checked.0 checked.1)
      ]

  one-answers :
      (arrival : Arrival)
      → (one arrival).1 ≡ ok tt
      → seen_to ((one arrival).0) ≡ messages decode_incoming (arrival ∷ [])
  unfolding serve_one recv
  one-answers (none, members) fine = refl
  one-answers (some wire, members) fine = elim (result_cases (decode_incoming wire)) [
    | inr (x, raised) ↦
        let failed : err x ≡ ok tt = rw (serve_one, recv, raised) at fine in
        absurd (ground (arith, failed))
    | inl (none, e) ↦ rw (serve_one, recv, e)
    | inl (some incoming, e) ↦
        rw (serve_one, recv, e)
          (handle_message-answers members incoming (rw (serve_one, recv, e) at fine))
  ]

  after_ok :
      (p q : List (Effect Content) × Result (Unit {0}))
      → p.1 ≡ ok tt
      → after decode_incoming decode has_signed handlers p q ≡ (p.0 ++ q.0, q.1)
  after_ok (effects, ok done) (later, r) h = refl
  after_ok (effects, err x) (later, r) h = absurd (ground (arith, h))

  after_err :
      (p q : List (Effect Content) × Result (Unit {0})) (x : Exc)
      → p.1 ≡ err x
      → after decode_incoming decode has_signed handlers p q ≡ (p.0, err x)
  after_err (effects, ok done) (later, r) x h = absurd (ground (arith, h))
  after_err (effects, err y) (later, r) x h = ap (λ (z : Result (Unit {0})). (effects, z)) h

  -- The arrivals at which the loop ends early: those before are seen to, the next one raises.
  pub record EndsEarly (arrivals : List Arrival) : Type 0 where
    pub before : List Arrival
    pub last : Arrival
    pub rest : List Arrival
    pub exception : Exc
    pub parts : arrivals ≡ before ++ last ∷ rest
    pub answered : seen_to ((all before).0) ≡ messages decode_incoming before
    pub raised : (one last).1 ≡ err exception
    pub ends : all arrivals ≡ ((all before).0 ++ (one last).0, err exception)

  earlier-EndsEarly :
      (a : Arrival) (arrivals : List Arrival)
      → (one a).1 ≡ ok tt
      → EndsEarly arrivals
      → EndsEarly (a ∷ arrivals)
  unfolding serve
  earlier-EndsEarly a arrivals fine e =
      let first = after_ok (one a) (all e.before) fine in
      record {
        before = a ∷ e.before;
        last = e.last;
        rest = e.rest;
        exception = e.exception;
        parts = ap (λ (l : List Arrival). a ∷ l) e.parts;
        answered = rw first (
            seen_to-append ((one a).0) ((all e.before).0)
            ∙ omega
                (arith, one-answers a fine, e.answered, messages-cons decode_incoming a e.before));
        raised = e.raised;
        ends =
            after_ok (one a) (all arrivals) fine
            ∙ rw (e.ends, first)
                (ap (λ (l : List (Effect Content)). (l, err e.exception))
                  (sym (append_assoc ((one a).0) ((all e.before).0) ((one e.last).0))));
      }

  -- The loop of a server ends in one of two ways. Either it raises nothing, and the empty replies and the
  -- handlers that are run in place of one are together as many as the messages that have arrived, where bytes
  -- that decode to something false as a condition, as an empty string, count as no message and get no answer;
  -- or a message raises, this holds for the arrivals before it, and nothing that arrives after it is looked
  -- at. A handler in place of an empty reply is left to answer by itself, which the loop does not check.
  pub serve_cases :
      (arrivals : List Arrival)
      → (((serve decode_incoming decode has_signed handlers arrivals).1 ≡ ok tt)
          × (seen_to ((serve decode_incoming decode has_signed handlers arrivals).0)
              ≡ messages decode_incoming arrivals))
        ⊎ EndsEarly arrivals
  unfolding serve
  serve_cases [] = inl (refl, refl)
  serve_cases (a ∷ arrivals) = elim (result_cases ((one a).1)) [
    | inr (x, raised) ↦ inr (record {
      before = [];
      last = a;
      rest = arrivals;
      exception = x;
      parts = refl;
      answered = refl;
      raised = raised;
      ends = after_err (one a) (all arrivals) x raised;
    })
    | inl (done, fine) ↦
        let run = after_ok (one a) (all arrivals) fine in
        elim (serve_cases arrivals) [
          | inr e ↦ inr (earlier-EndsEarly a arrivals fine e)
          | inl (ended, answered) ↦ inl (
            rw run ended,
            rw run (
                seen_to-append ((one a).0) ((all arrivals).0)
                ∙ omega (
                  arith,
                  one-answers a fine,
                  answered,
                  messages-cons decode_incoming a arrivals,
                )),
          )
        ]
  ]
