-- ===== src/Server/Session/Handling.antt =====
-- Which packets WorldSession::Update handles (server/game/Server/WorldSession.cpp).
use landlord.Prelude.{
  ℕ, zero, suc, ◌≡◌, ◌∙◌, refl, ◌⊎◌, inl, inr, Bool, true, false, ◌&&◌, if◌then◌else◌, none, some,
  List, [], ◌∷◌, arith, Option-cases, Bool-cases, Option, take, drop, sub32, is_positive,
}
use landlord.Game.Types.{Game}
use landlord.Game.Types.Opcodes
use landlord.Game.Store.{M, ◌>>=◌, ◌>>◌, pure}
use landlord.Network.Socket.{WorldPacket}
use landlord.Server.Session.{
  Rooms, WorldSession, handle_packet, handle_packets, session_update, the_player, close_late,
  max_packets, keep_connection, get_player, call_handler,
}

-- All of the packets, one after another.
pub handle_all : ℕ → List WorldPacket → Rooms → M Rooms
handle_all session [] rooms = pure rooms
handle_all session (packet ∷ queue) rooms = do
  rooms' ← handle_packet session packet rooms
  handle_all session queue rooms'

-- With a limit of `n` the loop handles the first `n` packets and leaves the others.
handle_packets-take :
    (n session : ℕ) (queue : List WorldPacket) (rooms : Rooms) (g : Game)
    → handle_packets n session queue rooms g
      ≡ (handle_all session (take n queue) rooms >>= λ r. pure (drop n queue, r)) g
unfolding handle_packets handle_all
handle_packets-take zero session queue rooms g = refl
handle_packets-take (suc n) session [] rooms g = refl
handle_packets-take (suc n) session (packet ∷ queue) rooms g =
    elim (Option-cases (handle_packet session packet rooms g)) [
      | inl e ↦ rw (e, ◌>>=◌)
      | inr ((r, g'), e) ↦ rw (e, ◌>>=◌) (handle_packets-take n session queue r g')
    ]

-- What Update makes of the session once its packets are handled; `live` says whether the socket still
-- is, and `late` packets are left.
pub ended : ℕ → Bool → List WorldPacket → WorldSession → Rooms → M (Bool × WorldSession × Rooms)
unfolding get_player
ended time_out live late s rooms = do
  player ← get_player s.id
  elim player [
    | none ↦
        pure (false, record s { connection = none; time_out = time_out; recv_queue = late }, rooms)
    | some p ↦ pure (
      live,
      record s {
        connection = if live then some true else none;
        time_out = time_out;
        recv_queue = late;
      },
      rooms,
    )
  ]

bind_at :
    {A B : Type 0} (m m' : M A) (f : A → M B) (g : Game) → m g ≡ m' g → (m >>= f) g ≡ (m' >>= f) g
bind_at m m' f g e = rw (◌>>=◌, e) refl

bind_assoc :
    {A B C : Type 0} (m : M A) (h : A → B) (f : B → M C) (g : Game)
    → ((m >>= λ a. pure (h a)) >>= f) g ≡ (m >>= λ a. f (h a)) g
bind_assoc m h f g = elim (Option-cases (m g)) [
  | inl e ↦ rw (e, ◌>>=◌) refl
  | inr ((a, g'), e) ↦ rw (e, ◌>>=◌) refl
]

bind_same :
    {A B : Type 0} (m : M A) (f f' : A → M B) (g : Game)
    → ((a : A) (g' : Game) → f a g' ≡ f' a g')
    → (m >>= f) g ≡ (m >>= f') g
bind_same m f f' g h = elim (Option-cases (m g)) [
  | inl e ↦ rw (e, ◌>>=◌) refl
  | inr ((a, g'), e) ↦ rw (e, ◌>>=◌) (h a g')
]

-- Update behind the loop.
abbrev behind : ℕ → WorldSession → Bool → List WorldPacket × Rooms → M (Bool × WorldSession × Rooms)
behind diff s live r = do
  player ← get_player s.id
  let kept = keep_connection (some live) player
  pure (
    elim kept [ none ↦ false | some _ ↦ true ],
    record s { connection = kept; time_out = sub32 s.time_out diff; recv_queue = r.0 },
    r.1,
  )

behind-ended :
    (diff : ℕ) (s : WorldSession) (live : Bool) (queue : List WorldPacket) (rooms : Rooms)
    (g : Game)
    → behind diff s live (queue, rooms) g ≡ ended (sub32 s.time_out diff) live queue s rooms g
unfolding ended get_player
behind-ended diff s live queue rooms g = go live (g.session_player s.id) refl
  where
    go :
        (live : Bool) (p : Option ℕ)
        → g.session_player s.id ≡ p
        → behind diff s live (queue, rooms) g ≡ ended (sub32 s.time_out diff) live queue s rooms g
    go true none e = rw (behind, ended, ◌>>=◌, e) refl
    go true (some p) e = rw (behind, ended, ◌>>=◌, e) refl
    go false none e = rw (behind, ended, ◌>>=◌, e) refl
    go false (some p) e = rw (behind, ended, ◌>>=◌, e) refl

-- Update from the loop on, where the socket is there, open or not.
from_loop :
    (diff : ℕ) (s : WorldSession) (rooms : Rooms) (g : Game) (live : Bool)
    → (handle_packets max_packets s.id s.recv_queue rooms >>= behind diff s live) g
      ≡ (handle_all s.id (take 101 s.recv_queue) rooms
            >>= ended (sub32 s.time_out diff) live (drop 101 s.recv_queue) s)
          g
from_loop diff s rooms g live =
    let first : M Rooms = handle_all s.id (take 101 s.recv_queue) rooms in
    let late : List WorldPacket = drop 101 s.recv_queue in
    bind_at (handle_packets max_packets s.id s.recv_queue rooms) (first >>= λ r. pure (late, r))
      (behind diff s live) g (handle_packets-take 101 s.id s.recv_queue rooms g)
    ∙ bind_assoc first (λ r. (late, r)) (behind diff s live) g
    ∙ bind_same first _ _ g (λ r g'. behind-ended diff s live late r g')

-- One call of Update for a session that has its socket handles the first 101 packets of the queue
-- one after another, each once, and keeps the others for the next call. The session stays if the
-- socket is open, the time-out has not run out and, after the packets, the session has a player.
pub session_update-first :
    (diff : ℕ) (s : WorldSession) (rooms : Rooms) (g : Game) (live : Bool)
    → s.connection ≡ some live
    → session_update diff s rooms g
      ≡ (handle_all s.id (take 101 s.recv_queue) rooms
            >>= ended
                (sub32 s.time_out diff)
                (live && is_positive (sub32 s.time_out diff))
                (drop 101 s.recv_queue)
                s)
          g
unfolding session_update close_late ended
session_update-first diff s rooms g true e =
    elim (Bool-cases (is_positive (sub32 s.time_out diff))) [
      | inl t ↦ simp (e, t) (from_loop diff s rooms g true)
      | inr f ↦ simp (e, f) (from_loop diff s rooms g false)
    ]
session_update-first diff s rooms g false e =
    elim (Bool-cases (is_positive (sub32 s.time_out diff))) [
      | inl t ↦ simp (e, t) (from_loop diff s rooms g false)
      | inr f ↦ simp (e, f) (from_loop diff s rooms g false)
    ]

-- The opcodes whose handler follows the pointer to the player.
abbrev NeedsPlayer : ℕ → Type 0
NeedsPlayer opcode =
    (opcode ≡ Opcodes.cmsg_wait_start)
    ⊎ (opcode ≡ Opcodes.cmsg_grad_landlord)
    ⊎ (opcode ≡ Opcodes.cmsg_card_out)
    ⊎ (opcode ≡ Opcodes.cmsg_round_over)
    ⊎ (opcode ≡ Opcodes.cmsg_log_out)

the_player-none :
    (session : ℕ) (g : Game) → g.session_player session ≡ none → the_player session g ≡ none
unfolding the_player get_player
the_player-none session g e = ground arith

-- A handler that begins with the player of the session faults without one.
no_player :
    (session : ℕ) (k : ℕ → M (Unit {0})) (rooms : Rooms) (g : Game)
    → g.session_player session ≡ none
    → ((the_player session >>= k) >> pure rooms) g ≡ none
no_player session k rooms g e = rw (the_player-none session g e, ◌>>=◌)

handle_packet-no_player :
    (session : ℕ) (packet : WorldPacket) (rooms : Rooms) (g : Game)
    → g.session_player session ≡ none
    → NeedsPlayer packet.opcode
    → handle_packet session packet rooms g ≡ none
unfolding handle_packet call_handler
handle_packet-no_player session packet rooms g e (inl h) = rw h (no_player session _ rooms g e)
handle_packet-no_player session packet rooms g e (inr (inl h)) =
    rw h (no_player session _ rooms g e)
handle_packet-no_player session packet rooms g e (inr (inr (inl h))) =
    rw h (no_player session _ rooms g e)
handle_packet-no_player session packet rooms g e (inr (inr (inr (inl h)))) =
    rw h (no_player session _ rooms g e)
handle_packet-no_player session packet rooms g e (inr (inr (inr (inr h)))) =
    rw h (no_player session _ rooms g e)

-- Once the player has left the game and the session has been told so, the next packet of the game
-- that the client sends makes Update follow a null pointer: the session still has its socket when
-- Update handles the queue, and only afterwards is the missing player noticed. The time-out has not
-- run out.
pub session_update-no_player :
    (diff : ℕ) (s : WorldSession) (packet : WorldPacket) (queue : List WorldPacket) (rooms : Rooms)
    (g : Game)
    → s.connection ≡ some true
    → s.recv_queue ≡ packet ∷ queue
    → is_positive (sub32 s.time_out diff) ≡ true
    → g.session_player s.id ≡ none
    → NeedsPlayer packet.opcode
    → session_update diff s rooms g ≡ none
unfolding session_update close_late handle_packets
session_update-no_player diff s packet queue rooms g c q t e h =
    simp (c, q, t, handle_packet-no_player s.id packet rooms g e h)
