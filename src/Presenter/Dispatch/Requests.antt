-- ===== src/Presenter/Dispatch/Requests.antt =====
-- The reading loop of internal/presenter/connection.go serves no request twice.
use sysc_tray.Prelude.{
  ℕ, ◌<◌, ◌≤◌, ◌≡◌, refl, ◌⊎◌, inl, inr, ◌&&◌, Option, none, some, arith, leb, is_ok, Text, List,
  [], ◌∷◌, ◌++◌, Option-cases, Bool-cases, if_both,
}
use sysc_tray.Protocol.Types.{Command, Envelope, Reply}
use sysc_tray.Protocol.Messages.{validate_envelope}
use sysc_tray.Presenter.Connection.{Connection, reply, reserve, release}
use sysc_tray.Presenter.Dispatch.{
  Commands, Codec, Served, Reader, serve, stop, accept, round, read_loop, is_command,
}

-- The request IDs grow, from one above `n` on.
abbrev pub Rising : ℕ → List Served → Type 0
Rising n [] = Unit {0}
Rising n (x ∷ xs) = (n < x.request_id) × Rising x.request_id xs

Rising-weaken : (m n : ℕ) (xs : List Served) → n ≤ m → Rising m xs → Rising n xs
Rising-weaken m n [] le h = tt
Rising-weaken m n (x ∷ xs) le h = (ground arith, h.1)

reply-request :
    (f : Option Text) (c : Connection) → (reply f c).0.last_request_id ≡ c.last_request_id
unfolding reply reserve release
reply-request none c = refl
reply-request (some f) c = ground arith

-- What a round leaves: nothing served, or one command with the request ID that the connection now
-- remembers.
abbrev Served1 : {H : Type 0} → ℕ → Reader H → Type 0
Served1 n r =
    (r.served ≡ [] × n ≤ r.connection.last_request_id)
    ⊎ ((x : Served) × r.served ≡ x ∷ []
        × (n < x.request_id × x.request_id ≡ r.connection.last_request_id))

module _ {H : Type 0} (codec : Codec) (commands : Option (Commands H)) where
  serve-Served1 :
      (n id : ℕ) (command : Command) (c : Connection) (s : H)
      → n < id
      → c.last_request_id ≡ id
      → Served1 n (serve codec commands id command c s)
  unfolding serve
  serve-Served1 n id command c s lt eq =
      let kept : (r : Reply) → id ≡ (reply (codec.encode_reply id r) c).0.last_request_id =
        λ r. cc (reply-request (codec.encode_reply id r) c) in
      inr (_, refl, (lt, kept _))

  accept-Served1 :
      (e : Envelope) (c : Connection) (s : H)
      → Served1 c.last_request_id (accept codec commands e c s)
  unfolding accept stop
  accept-Served1 e c s = elim (Bool-cases (leb e.request_id c.last_request_id)) [
    | inl late ↦ rw late (inl (refl, ground arith))
    | inr fresh ↦ elim (Option-cases (codec.decode_command e.payload)) [
      | inl bad ↦ rw (fresh, bad) (inl (refl, ground arith))
      | inr (command, good) ↦ rw (fresh, good) (serve-Served1 _ _ command _ s (ground arith) refl)
    ]
  ]

  round-Served1 :
      (frame : Text) (c : Connection) (s : H)
      → Served1 c.last_request_id (round codec commands frame c s)
  unfolding round stop
  round-Served1 frame c s = elim (Option-cases (codec.decode_envelope frame)) [
    | inl bad ↦ rw (bad, round) (inl (refl, ground arith))
    | inr (e, good) ↦
        rw (good, round)
          (if_both (Served1 c.last_request_id)
            (is_ok (validate_envelope codec.json_valid e) && is_command e.kind)
            (accept codec commands e c s) (stop codec commands c s) (accept-Served1 e c s)
            (inl (refl, ground arith)))
  ]

  Rising-join :
      (n : ℕ) (r : Reader H) (rest : List Served)
      → Served1 n r
      → Rising r.connection.last_request_id rest
      → Rising n (r.served ++ rest)
  Rising-join n r rest (inl (none_served, le)) h = rw none_served (Rising-weaken _ n rest le h)
  Rising-join n r rest (inr (x, one_served, (lt, eq))) h = rw one_served (lt, rw eq h)

  Rising-one : (n : ℕ) (r : Reader H) → Served1 n r → Rising n r.served
  Rising-one n r (inl (none_served, le)) = rw none_served tt
  Rising-one n r (inr (x, one_served, (lt, eq))) = rw one_served (lt, tt)

  -- The commands that one connection's loop serves have growing request IDs, all above the last one
  -- that the connection had accepted: no request is served twice, whatever frames arrive.
  pub read_loop-Rising :
      (frames : List Text) (c : Connection) (s : H)
      → Rising c.last_request_id (read_loop codec commands frames c s).served
  unfolding read_loop
  read_loop-Rising [] c s = tt
  read_loop-Rising (frame ∷ frames) c s =
      let r = round codec commands frame c s in
      elim (Bool-cases r.going) [
        | inl on ↦ rw on (
            Rising-join _ r _ (round-Served1 frame c s)
              (read_loop-Rising frames r.connection r.handler))
        | inr off ↦ rw off (Rising-one _ r (round-Served1 frame c s))
      ]
