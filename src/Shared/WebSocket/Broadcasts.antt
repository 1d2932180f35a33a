-- ===== src/Shared/WebSocket/Broadcasts.antt =====
-- The frames that a broadcast of src/shared/websocket-server.ts caches.
use agentic_collab.Common.{
  ◌≡◌, refl, ap, ap₂, sym, ◌∙◌, String, Bool, true, false, not, ◌&&◌, Option, none, List, [], ◌∷◌,
  ◌++◌, if◌then◌else◌, length, Text, or_else, inl, inr, Bool-cases, leb,
}
use agentic_collab.Shared.WebSocket.Server.{
  Client, SocketEvent, ClientOutcome, wrote, write_frame, frame_for_client, send, should_deliver,
  compress_threshold,
}
use agentic_collab.Shared.WebSocket.Clients.{
  Server, for_each, on_each, broadcast_loop, broadcast_filtered, is_sent, cached, zips, plain_frame,
  compressed_frame,
}

-- `send` to a client that is to receive it.
abbrev pub send_if : (Text → Text) → (Client → Bool) → Text → Client → ClientOutcome
send_if deflate receives raw c = if receives c then send deflate raw c else (c, [])

or_else-cached :
    (b : Bool) (o : Option Text) (t : Text) → or_else o t ≡ t → or_else (cached b o t) t ≡ t
unfolding cached
or_else-cached true o t h = h
or_else-cached false o t h = h

-- The branches of the loop's round, for any tests.
abbrev round_of :
    {A : Type 0} → Bool → A → A → List SocketEvent → List SocketEvent → A × List SocketEvent
round_of b x y es fs = if b then (x, es) else (y, fs)

second-round_of :
    {A : Type 0} (b : Bool) (x y : A) (es fs : List SocketEvent)
    → (round_of b x y es fs).1 ≡ (if b then es else fs)
second-round_of true x y es fs = refl
second-round_of false x y es fs = refl

first-round_of :
    {A : Type 0} (b : Bool) (x y z : A) (es fs : List SocketEvent)
    → x ≡ z
    → y ≡ z
    → (round_of b x y es fs).0 ≡ z
first-round_of true x y z es fs p q = p
first-round_of false x y z es fs p q = q

abbrev guarded : Bool → Bool → Client → List SocketEvent → ClientOutcome
guarded r w c es = if r then (if w then (c, es) else (c, [])) else (c, [])

guarded_events :
    (l w r : Bool) (c : Client) (es fs : List SocketEvent)
    → (if l then (guarded r w c es).1 ++ fs else fs) ≡ (if l && (w && r) then es else []) ++ fs
guarded_events false w r c es fs = refl
guarded_events true false false c es fs = refl
guarded_events true false true c es fs = refl
guarded_events true true false c es fs = refl
guarded_events true true true c es fs = refl

guarded_client : (w r : Bool) (c : Client) (es : List SocketEvent) → (guarded r w c es).0 ≡ c
guarded_client w false c es = refl
guarded_client false true c es = refl
guarded_client true true c es = refl

module _ (deflate : Text → Text) (receives : Client → Bool) (raw : Text) where
  abbrev sent_to : Client → List SocketEvent
  sent_to c =
      if is_sent deflate receives raw c
      then wrote c.id (frame_for_client deflate c raw) ∷ []
      else []

  sent_to-send_if :
      (c : Client) (es : List SocketEvent)
      → (if c.listed then (send_if deflate receives raw c).1 ++ es else es) ≡ sent_to c ++ es
  unfolding send write_frame is_sent
  sent_to-send_if c es =
      guarded_events c.listed c.writable (receives c) c
        (wrote c.id (frame_for_client deflate c raw) ∷ []) es

  -- The frame that the caches hold once a client has had it.
  cached_frame :
      (plain compressed : Option Text) (c : Client)
      → or_else plain (plain_frame raw) ≡ plain_frame raw
      → or_else compressed (compressed_frame deflate raw) ≡ compressed_frame deflate raw
      → or_else
          (if zips raw c
            then cached (zips raw c) compressed (compressed_frame deflate raw)
            else cached (not (zips raw c)) plain (plain_frame raw))
          []
        ≡ frame_for_client deflate c raw
  unfolding zips cached frame_for_client plain_frame compressed_frame
  cached_frame plain compressed c p q =
      elim (Bool-cases (c.compress && leb compress_threshold (length raw))) [
        | inl z ↦ rw z q
        | inr z ↦ rw z p
      ]

  written :
      (plain compressed : Option Text) (c : Client)
      → or_else plain (plain_frame raw) ≡ plain_frame raw
      → or_else compressed (compressed_frame deflate raw) ≡ compressed_frame deflate raw
      → (if is_sent deflate receives raw c
          then wrote c.id (
              or_else
                (if zips raw c
                  then cached
                      (is_sent deflate receives raw c && zips raw c)
                      compressed
                      (compressed_frame deflate raw)
                  else cached
                      (is_sent deflate receives raw c && not (zips raw c))
                      plain
                      (plain_frame raw))
                [])
            ∷ []
          else [])
        ≡ sent_to c
  written plain compressed c p q = elim (Bool-cases (is_sent deflate receives raw c)) [
    | inl s ↦ rw s (ap (λ t. wrote c.id t ∷ []) (cached_frame plain compressed c p q))
    | inr s ↦ rw s refl
  ]

  -- What the loop writes where each frame in the cache is the one that would be made.
  broadcast_loop-for_each :
      (plain compressed : Option Text) (cs : List Client)
      → or_else plain (plain_frame raw) ≡ plain_frame raw
      → or_else compressed (compressed_frame deflate raw) ≡ compressed_frame deflate raw
      → broadcast_loop deflate receives raw plain compressed cs
        ≡ (for_each (send_if deflate receives raw) cs).1
  unfolding broadcast_loop for_each
  broadcast_loop-for_each plain compressed [] p q = refl
  broadcast_loop-for_each plain compressed (c ∷ cs) p q =
      ap₂ (λ (es fs : List SocketEvent). es ++ fs) (written plain compressed c p q)
        (broadcast_loop-for_each
          (cached (is_sent deflate receives raw c && not (zips raw c)) plain (plain_frame raw))
          (cached (is_sent deflate receives raw c && zips raw c) compressed
            (compressed_frame deflate raw))
          cs
          (or_else-cached (is_sent deflate receives raw c && not (zips raw c)) plain
            (plain_frame raw) p)
          (or_else-cached (is_sent deflate receives raw c && zips raw c) compressed
            (compressed_frame deflate raw) q))
      ∙ sym (sent_to-send_if c (for_each (send_if deflate receives raw) cs).1)
      ∙ sym (
          second-round_of c.listed
            ((send_if deflate receives raw c).0 ∷ (for_each (send_if deflate receives raw) cs).0)
            (c ∷ (for_each (send_if deflate receives raw) cs).0) _ _)

  send_if_client : (c : Client) → (send_if deflate receives raw c).0 ≡ c
  unfolding send write_frame
  send_if_client c =
      guarded_client c.writable (receives c) c (wrote c.id (frame_for_client deflate c raw) ∷ [])

  for_each_clients : (cs : List Client) → (for_each (send_if deflate receives raw) cs).0 ≡ cs
  unfolding for_each
  for_each_clients [] = refl
  for_each_clients (c ∷ cs) =
      first-round_of c.listed _ _ (c ∷ cs) _ _
        (ap₂ (λ (d : Client) (ds : List Client). d ∷ ds) (send_if_client c) (for_each_clients cs))
        (ap (λ ds. c ∷ ds) (for_each_clients cs))

-- A filtered broadcast, which makes each of the two frames once, does what sending the text to
-- each connected client in turn does, to those whose subscription has the agent.
pub broadcast_filtered-send :
    (deflate : Text → Text) (raw : Text) (agent : Option String) (s : Server)
    → broadcast_filtered deflate raw agent s
      ≡ on_each (send_if deflate (λ c. should_deliver c agent) raw) s
unfolding broadcast_filtered
broadcast_filtered-send deflate raw agent s =
    rw
      (
        broadcast_loop-for_each deflate (λ c. should_deliver c agent) raw none none s.clients refl
            refl,
        for_each_clients deflate (λ c. should_deliver c agent) raw s.clients,
      )
      refl
