-- ===== src/AsyncUtils.antt =====
-- lib/pheidippides-utils/src/async_utils.rs: the tasks that move messages between channels. A task
-- takes one turn after another; a turn is the branch of `select!` that completes first, with what
-- `recv` returned. The result is what the task sends.
pub mod Laws
use pheidippides.Prelude.{List, [], ◌∷◌, Option, none, some, Result, ok, err}

-- `sender.closed()`, or a value of `recv()`.
pub data Turn (R : Type 0) : Type 0 where
  closed : Turn R
  received : R → Turn R

-- The errors of `broadcast::Receiver::recv`.
pub data RecvError : Type 0 where
  sender_dropped lagged : RecvError

abbrev push_some {ℓ} : {O : Type ℓ} → Option O → List O → List O
push_some none sent = sent
push_some (some message_out) sent = message_out ∷ sent

module _ {I O : Type 0} (f : I → Option O) where
  unfoldable pub pipe_unbounded_channel : List (Turn (Option I)) → List O
  pipe_unbounded_channel [] = []
  pipe_unbounded_channel (closed ∷ turns) = []
  pipe_unbounded_channel (received none ∷ turns) = []
  pipe_unbounded_channel (received (some message_in) ∷ turns) =
      push_some (f message_in) (pipe_unbounded_channel turns)

  unfoldable pub pipe_broadcast : List (Turn (Result RecvError I)) → List O
  pipe_broadcast [] = []
  pipe_broadcast (closed ∷ turns) = []
  pipe_broadcast (received (err e) ∷ turns) = []
  pipe_broadcast (received (ok message_in) ∷ turns) =
      push_some (f message_in) (pipe_broadcast turns)

unfoldable pub redirect_unbounded_channel : {T : Type 0} → List (Turn (Option T)) → List T
redirect_unbounded_channel [] = []
redirect_unbounded_channel (closed ∷ turns) = []
redirect_unbounded_channel (received none ∷ turns) = []
redirect_unbounded_channel (received (some message) ∷ turns) =
    message ∷ redirect_unbounded_channel turns
