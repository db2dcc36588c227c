-- ===== src/AsyncUtils/Laws.antt =====
-- lib/pheidippides-utils/src/async_utils.rs: a pipe sends the image of what it receives, in order,
-- up to the first error.
use pheidippides.Prelude.{
  List, [], ◌∷◌, ◌++◌, map, Option, some, Result, ok, err, ◌≡◌, refl, arith, filter_map,
}
use pheidippides.AsyncUtils.{
  Turn, received, RecvError, pipe_unbounded_channel, pipe_broadcast, redirect_unbounded_channel,
}

abbrev pub arrived : {I : Type 0} → List I → List (Turn (Result RecvError I))
arrived ms = map (λ m. received (ok m)) ms

abbrev pub queued : {I : Type 0} → List I → List (Turn (Option I))
queued ms = map (λ m. received (some m)) ms

module _ {I O : Type 0} (f : I → Option O) where
  pub pipe_broadcast-append :
      (ms : List I) (rest : List (Turn (Result RecvError I)))
      → pipe_broadcast f (arrived ms ++ rest) ≡ filter_map f ms ++ pipe_broadcast f rest
  unfolding pipe_broadcast
  pipe_broadcast-append [] rest = refl
  pipe_broadcast-append (m ∷ ms) rest = ground (arith, pipe_broadcast-append ms rest)

  -- A pipe from a broadcast channel sends the images of what arrives before the channel's first error,
  -- in order, and nothing of what comes after it, also if the receiver had only lagged behind.
  pub pipe_broadcast-err :
      (ms : List I) (e : RecvError) (rest : List (Turn (Result RecvError I)))
      → pipe_broadcast f (arrived ms ++ received (err e) ∷ rest) ≡ filter_map f ms
  unfolding pipe_broadcast
  pipe_broadcast-err [] e rest = refl
  pipe_broadcast-err (m ∷ ms) e rest = ground (arith, pipe_broadcast-err ms e rest)

  pub pipe_unbounded_channel-append :
      (ms : List I) (rest : List (Turn (Option I)))
      → pipe_unbounded_channel f (queued ms ++ rest)
        ≡ filter_map f ms ++ pipe_unbounded_channel f rest
  unfolding pipe_unbounded_channel
  pipe_unbounded_channel-append [] rest = refl
  pipe_unbounded_channel-append (m ∷ ms) rest =
      ground (arith, pipe_unbounded_channel-append ms rest)

pub redirect-append :
    {T : Type 0} (ms : List T) (rest : List (Turn (Option T)))
    → redirect_unbounded_channel (queued ms ++ rest) ≡ ms ++ redirect_unbounded_channel rest
unfolding redirect_unbounded_channel
redirect-append [] rest = refl
redirect-append (m ∷ ms) rest = ground (arith, redirect-append ms rest)
