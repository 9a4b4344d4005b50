-- ===== src/Richat/Grpc/Order.antt =====
-- A subscriber's stream under any sequence of pushes, errors and polls, richat/src/grpc/server.rs.
use dragonmouth.Base.{
  ℕ, ◌+◌, ◌-◌, ◌≡◌, refl, sym, ap, ◌∙◌, Bool, true, false, inl, inr, List, [], ◌∷◌, ◌++◌, Option,
  none, some, arith, ltb, length, append_assoc, append-nil, All,
}
use dragonmouth.Plugin.Message.{Bytes}
use dragonmouth.Plugin.Channel.{Outcome, ok, ◌>>=◌}
use dragonmouth.Filter.Message.{sum}
use dragonmouth.Richat.Grpc.{
  Status, SubscribeClientState, wake, push_error, push_message, push_messages, pop_front,
  pop_message, ReceiverStream, polled, answer, Poll, pending, end_of_stream, ready,
  stream_poll_next,
}

-- The count of queued bytes is right.
abbrev pub IsCounted : SubscribeClientState → Type 0
IsCounted state = state.messages_len_total ≡ sum length state.messages

sum-append : (xs ys : List Bytes) → sum length (xs ++ ys) ≡ sum length xs + sum length ys
unfolding sum
sum-append [] ys = omega arith
sum-append (x ∷ xs) ys = grind (arith, sum-append xs ys)

pub push_message-IsCounted :
    (state : SubscribeClientState) (m : Bytes) → IsCounted state → IsCounted (push_message state m)
unfolding push_message wake sum
push_message-IsCounted state m c = omega (arith, c, sum-append state.messages (m ∷ []))

pub push_messages-IsCounted :
    (ms : List Bytes) (state : SubscribeClientState)
    → IsCounted state
    → IsCounted (push_messages state ms)
unfolding push_messages
push_messages-IsCounted [] state c = c
push_messages-IsCounted (m ∷ ms) state c =
    push_messages-IsCounted ms (push_message state m) (push_message-IsCounted state m c)

-- What happens to a subscriber, seen from its stream.
pub data Step : Type 0 where
  push : Bytes → Step
  fail : Status → Step
  poll : ℕ → Step

module _ (rest : ReceiverStream → Outcome (ReceiverStream × List Poll)) where
  abbrev after_poll : Outcome (ReceiverStream × Poll) → Outcome (ReceiverStream × List Poll)
  after_poll turn = do (stream, p) ← turn; (stream', ps) ← rest stream; ok (stream', p ∷ ps)

abbrev with_client : (SubscribeClientState → SubscribeClientState) → ReceiverStream → ReceiverStream
with_client f stream = record stream { client = f stream.client }

unfoldable pub run : List Step → ReceiverStream → Outcome (ReceiverStream × List Poll)
run [] stream = ok (stream, [])
run (push m ∷ steps) stream = run steps (with_client (λ s. push_message s m) stream)
run (fail e ∷ steps) stream = run steps (with_client (λ s. push_error s e) stream)
run (poll w ∷ steps) stream = after_poll (run steps) (stream_poll_next w stream)

unfoldable pub pushed : List Step → List Bytes
pushed [] = []
pushed (push m ∷ steps) = m ∷ pushed steps
pushed (fail e ∷ steps) = pushed steps
pushed (poll w ∷ steps) = pushed steps

unfoldable pub given : List Poll → List Bytes
given [] = []
given (ready (inr m) ∷ ps) = m ∷ given ps
given (ready (inl e) ∷ ps) = given ps
given (pending ∷ ps) = given ps
given (end_of_stream ∷ ps) = given ps

-- One poll returns, and gives at most the first message.
unfoldable taken : Poll → List Bytes
taken p = given (p ∷ [])

given-cons : (p : Poll) (ps : List Poll) → given (p ∷ ps) ≡ taken p ++ given ps
unfolding given taken
given-cons (ready (inr m)) ps = refl
given-cons (ready (inl e)) ps = refl
given-cons pending ps = refl
given-cons end_of_stream ps = refl

abbrev Polled : ℕ → ReceiverStream → Type 0
Polled w stream =
    (stream' : ReceiverStream) × (p : Poll) × (stream_poll_next w stream ≡ ok (stream', p))
    × (taken p ++ stream'.client.messages ≡ stream.client.messages)
    × IsCounted stream'.client

abbrev open_stream : SubscribeClientState → ReceiverStream
open_stream s = record { client = s; finished = false }

poll_next-pop :
    (w : ℕ) (s s' : SubscribeClientState) (o : Option Bytes)
    → s.messages_error ≡ none
    → pop_front w s s.messages ≡ ok (s', o)
    → stream_poll_next w (open_stream s) ≡ ok (polled s' (answer o))
unfolding stream_poll_next pop_message
poll_next-pop w s s' o e q = rw e (rw (q, ◌>>=◌) refl)

poll_queue :
    (w : ℕ) (s : SubscribeClientState) (ms : List Bytes)
    → s.messages ≡ ms
    → s.messages_error ≡ none
    → IsCounted s
    → Polled w (open_stream s)
unfolding pop_front taken given sum
poll_queue w s [] q e c =
    let s' : SubscribeClientState = record s { messages_waker = some w } in
    (open_stream s', pending, poll_next-pop w s s' none e (rw q refl), refl, c)
poll_queue w s (m ∷ ms) q e c =
    let count : s.messages_len_total ≡ length m + sum length ms = c ∙ ap (sum length) q in
    let fits : ltb s.messages_len_total (length m) ≡ false = ground (arith, count) in
    let s' : SubscribeClientState = record s {
      messages_len_total = s.messages_len_total - length m;
      messages = ms;
    } in
    (
      open_stream s',
      ready (inr m),
      poll_next-pop w s s' (some m) e (rw q (rw (fits, pop_front) refl)),
      sym q,
      omega (arith, count),
    )

poll_open :
    (w : ℕ) (s : SubscribeClientState) (o : Option Status)
    → s.messages_error ≡ o
    → IsCounted s
    → Polled w (open_stream s)
unfolding stream_poll_next pop_message taken given
poll_open w s none e c = poll_queue w s s.messages refl e c
poll_open w s (some error) e c =
    let s' : SubscribeClientState = record s { messages_error = none } in
    (record { client = s'; finished = true }, ready (inl error), rw (e, ◌>>=◌) refl, refl, c)

poll_next-Polled :
    (w : ℕ) (s : SubscribeClientState) (finished : Bool)
    → IsCounted s
    → Polled w (record { client = s; finished = finished })
unfolding stream_poll_next taken given
poll_next-Polled w s true c = (record { client = s; finished = true }, end_of_stream, refl, refl, c)
poll_next-Polled w s false c = poll_open w s s.messages_error refl c

abbrev pub Ordered : List Step → ReceiverStream → Type 0
Ordered steps stream =
    (stream' : ReceiverStream) × (ps : List Poll) × (run steps stream ≡ ok (stream', ps))
    × (given ps ++ stream'.client.messages ≡ stream.client.messages ++ pushed steps)
    × IsCounted stream'.client

-- Whatever is pushed, fails and is polled, in whatever order, on a stream whose count of queued
-- bytes is right, no step panics, the count stays right, and the messages that the polls give,
-- followed by those still queued, are those queued at the start and then those pushed, in order.
pub run-Ordered :
    (steps : List Step) (stream : ReceiverStream) → IsCounted stream.client → Ordered steps stream
unfolding run pushed given push_message push_error wake
run-Ordered [] stream c = (stream, [], refl, sym (append-nil stream.client.messages), c)
run-Ordered (push m ∷ steps) stream c =
    let (stream', ps, e, q, c') =
      run-Ordered steps (with_client (λ s. push_message s m) stream)
        (push_message-IsCounted stream.client m c) in
    (stream', ps, e, q ∙ append_assoc stream.client.messages (m ∷ []) (pushed steps), c')
run-Ordered (fail error ∷ steps) stream c =
    run-Ordered steps (with_client (λ s. push_error s error) stream) c
run-Ordered (poll w ∷ steps) stream c =
    let (mid, p, e₁, q₁, c₁) = poll_next-Polled w stream.client stream.finished c in
    let (stream', ps, e, q, c') = run-Ordered steps mid c₁ in
    (
      stream',
      p ∷ ps,
      rw (e₁, ◌>>=◌) (rw (e, ◌>>=◌) refl),
      ap (λ l. l ++ stream'.client.messages) (given-cons p ps)
          ∙ append_assoc (taken p) (given ps) stream'.client.messages
          ∙ ap (λ l. taken p ++ l) q
          ∙ sym (append_assoc (taken p) mid.client.messages (pushed steps))
          ∙ ap (λ l. l ++ pushed steps) q₁,
      c',
    )

-- A stream that has ended gives nothing more, whatever happens.
abbrev ended : SubscribeClientState → ReceiverStream
ended s = record { client = s; finished = true }

run-finished :
    (steps : List Step) (s : SubscribeClientState)
    → (stream' : ReceiverStream) × (ps : List Poll) × (run steps (ended s) ≡ ok (stream', ps))
      × All (λ p. p ≡ end_of_stream) ps
unfolding run stream_poll_next
run-finished [] s = (ended s, [], refl, tt)
run-finished (push m ∷ steps) s = run-finished steps (push_message s m)
run-finished (fail error ∷ steps) s = run-finished steps (push_error s error)
run-finished (poll w ∷ steps) s =
    let (stream', ps, r, all) = run-finished steps s in
    (stream', end_of_stream ∷ ps, rw (r, ◌>>=◌) refl, (refl, all))

-- After an error the next poll of a stream that has not ended gives the error, before any message
-- that is still queued, and every later poll says that the stream has ended.
pub run-fails :
    (error : Status) (w : ℕ) (steps : List Step) (stream : ReceiverStream)
    → stream.finished ≡ false
    → (stream' : ReceiverStream) × (ps : List Poll) × (run (fail error ∷ poll w ∷ steps) stream
        ≡ ok (stream', ready (inl error) ∷ ps))
      × All (λ p. p ≡ end_of_stream) ps
unfolding run stream_poll_next pop_message push_error wake
run-fails error w steps stream e =
    let failed : SubscribeClientState = push_error stream.client error in
    let (stream', ps, r, all) = run-finished steps (record failed { messages_error = none }) in
    (stream', ps, rw (e, ◌>>=◌) (rw (r, ◌>>=◌) refl), all)
