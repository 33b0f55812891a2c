-- ===== src/Engine/Reading.antt =====
-- `NetworkConnection.receive` of network.py with `FixEngine.on_network_data` as its handler: the bytes
-- of a connection, read by read, through the framer to the handling of each message.
use gofixmsg.Prelude.{
  ℕ, zero, suc, ◌<◌, ◌≡◌, arith, refl, ap, ◌∙◌, Bool, Bool-cases, true, false, not, inl, inr,
  Option, none, some, [], ◌∷◌, if◌then◌else◌,
}
use gofixmsg.Codec.{◌>>=◌}
use gofixmsg.Framer.{Bytes, Processed, on_network_data}
use gofixmsg.Framer.Fuel.{on_network_data_returns}
use gofixmsg.Engine.{Env, Engine}
use gofixmsg.Engine.Outgoing.{network_disconnect}
use gofixmsg.Engine.Incoming.{process_single_fix_message}

-- What `reader.read` gives: bytes, none of them at the end of the stream, or an exception.
pub data Read : Type 0 where
  received : Bytes → Read
  failed : Read

-- The reads at which the loop ends by itself.
abbrev pub ends : Read → Bool
ends failed = true
ends (received []) = true
ends (received (b ∷ bytes)) = false

when_up {ℓ} : {A : Type ℓ} (b : Bool) (x y : A) → b ≡ true → (if not b then x else y) ≡ y
when_up true x y h = refl
when_up false x y h = cc

when_down {ℓ} : {A : Type ℓ} (b : Bool) (x y : A) → b ≡ false → (if not b then x else y) ≡ x
when_down true x y h = cc
when_down false x y h = refl

module _ (env : Env) where
  -- The handling of a message, as the framing loop sees it.
  unfoldable pub processed : Bytes → Engine → Processed Engine
  processed wire e =
      let (s, raised) = process_single_fix_message env wire (record e { cleared = false }) in
      record { state = s; cleared = s.cleared; raised = raised }

  -- A turn of the loop behind its test, with the rest of the loop: each `except` ends it, no bytes
  -- `break`, and the handler catches what it raises.
  abbrev pub turn :
      Read → (Bytes × Engine → Option (Bytes × Engine)) → Bytes × Engine → Option (Bytes × Engine)
  turn failed rest c = some c
  turn (received []) rest c = some c
  turn (received (b ∷ bytes)) rest c = on_network_data processed (b ∷ bytes) c >>= rest

  -- The loop of `receive`, over what the reads will give, for ever; `none` is that the fuel was used up.
  unfoldable receive_loop : ℕ → (ℕ → Read) → Bytes × Engine → Option (Bytes × Engine)
  receive_loop zero reads c = none
  receive_loop (suc fuel) reads c =
      let next = turn (reads 0) (receive_loop fuel (λ i. reads (suc i))) c in
      if not (c.1.running) then some c else next

  -- `finally`: a connection that is still marked as running is disconnected.
  abbrev pub closed : Bytes × Engine → Bytes × Engine
  closed (buffer, e) = (buffer, if e.running then (network_disconnect env e).0 else e)

  -- `receive`. Without a reader the connection is not running.
  unfoldable pub receive : ℕ → (ℕ → Read) → Bytes × Engine → Option (Bytes × Engine)
  unfolding receive_loop
  receive fuel reads c =
      if not (c.1.running) then some c else (receive_loop fuel reads c >>= λ d. some (closed d))

  abbrev Returns : Option (Bytes × Engine) → Type 0
  Returns o = (d : Bytes × Engine) × (o ≡ some d)

  turn-ends :
      (r : Read) (rest : Bytes × Engine → Option (Bytes × Engine)) (c : Bytes × Engine)
      → ends r ≡ true
      → Returns (turn r rest c)
  turn-ends failed rest c h = (c, refl)
  turn-ends (received []) rest c h = (c, refl)
  turn-ends (received (b ∷ bytes)) rest c h = cc

  turn_goes_on :
      (r : Read) (rest : Bytes × Engine → Option (Bytes × Engine)) (c : Bytes × Engine)
      → ((d : Bytes × Engine) → Returns (rest d))
      → Returns (turn r rest c)
  turn_goes_on failed rest c k = (c, refl)
  turn_goes_on (received []) rest c k = (c, refl)
  turn_goes_on (received (b ∷ bytes)) rest c k =
      let (d, e) = on_network_data_returns processed (b ∷ bytes) c in
      let (r, f) = k d in (r, ap (λ o. o >>= rest) e ∙ f)

  down_or_next :
      (b : Bool) (c : Bytes × Engine) (next : Option (Bytes × Engine))
      → Returns next
      → Returns (if not b then some c else next)
  down_or_next true c next h = h
  down_or_next false c next h = (c, refl)

  loop-Returns :
      (n fuel : ℕ) (reads : ℕ → Read) (c : Bytes × Engine)
      → ends (reads n) ≡ true
      → n < fuel
      → Returns (receive_loop fuel reads c)
  unfolding receive_loop
  loop-Returns n zero reads c h l = elim l [ ]
  loop-Returns zero (suc fuel) reads c h l =
      let rest = receive_loop fuel (λ i. reads (suc i)) in
      down_or_next (c.1.running) c (turn (reads 0) rest c) (turn-ends (reads 0) rest c h)
  loop-Returns (suc n) (suc fuel) reads c h l =
      let later = λ (i : ℕ). reads (suc i) in
      let rest = receive_loop fuel later in
      down_or_next (c.1.running) c (turn (reads 0) rest c)
        (turn_goes_on (reads 0) rest c (λ d. loop-Returns n fuel later d h (omega arith)))

  network_disconnect_stops : (e : Engine) → (network_disconnect env e).0.running ≡ false
  unfolding network_disconnect
  network_disconnect_stops e = ground arith

  closed_stops :
      (e : Engine) → (if e.running then (network_disconnect env e).0 else e).running ≡ false
  closed_stops e = stops e.running e refl
    where
      stops :
          (b : Bool) (s : Engine)
          → s.running ≡ b
          → (if b then (network_disconnect env s).0 else s).running ≡ false
      stops true s h = network_disconnect_stops s
      stops false s h = h

  -- When some read fails or finds the end of the stream, `receive` returns, whatever is read before and
  -- whatever the messages do, given fuel for the turns up to that read; and afterwards the
  -- connection is not running.
  pub receive_stops :
      (n fuel : ℕ) (reads : ℕ → Read) (c : Bytes × Engine)
      → ends (reads n) ≡ true
      → n < fuel
      → (d : Bytes × Engine) × (receive fuel reads c ≡ some d) × (d.1.running ≡ false)
  unfolding receive
  receive_stops n fuel reads c h l = elim (Bool-cases (c.1.running)) [
    | inl up ↦
        let (d, f) = loop-Returns n fuel reads c h l in
        (
          closed d,
          when_up (c.1.running) (some c) _ up ∙ ap (λ o. o >>= λ x. some (closed x)) f,
          closed_stops d.1,
        )
    | inr down ↦ (c, when_down (c.1.running) (some c) _ down, down)
  ]
