-- ===== src/Network/Connection/Queues.antt =====
-- The reader task of crates/tusher-network/src/connection.rs.
use t_u_s_h_e_r.Base.{
  ℕ, ◌≡◌, refl, Bool, true, false, not, ◌&&◌, Option, none, some, List, [], ◌∷◌, ◌++◌, arith,
  filter,
}
use t_u_s_h_e_r.Base.Cuts.{append-nil, append_assoc}
use t_u_s_h_e_r.Base.Int.{ℤ}
use t_u_s_h_e_r.Core.Protocol.{
  Message, ping, pong, manifest_resp, transfer_init_ack, transfer_chunk_ack, transfer_complete_ack,
}
use t_u_s_h_e_r.Network.Connection.{PeerConnection, on_read, run_reader}

-- The messages before the first that cannot be decoded.
unfoldable pub decoded : List (Option Message) → List Message
decoded [] = []
decoded (none ∷ later) = []
decoded (some msg ∷ later) = msg ∷ decoded later

abbrev pub is_manifest : Message → Bool
is_manifest (manifest_resp folder_id events latest) = true
is_manifest msg = false

abbrev pub is_response : Message → Bool
is_response (transfer_init_ack transfer_id accepted existing reason) = true
is_response (transfer_chunk_ack transfer_id chunk_index accepted) = true
is_response (transfer_complete_ack transfer_id verified error) = true
is_response msg = false

abbrev pub is_probe : Message → Bool
is_probe (ping sequence timestamp_ms) = true
is_probe (pong sequence timestamp_ms) = true
is_probe msg = false

abbrev pub is_request : Message → Bool
is_request msg = not (is_manifest msg) && not (is_response msg) && not (is_probe msg)

-- The pongs that came in.
unfoldable pub pongs : List Message → List (ℕ × ℤ)
pongs [] = []
pongs (pong sequence timestamp_ms ∷ msgs) = (sequence, timestamp_ms) ∷ pongs msgs
pongs (msg ∷ msgs) = pongs msgs

-- The pongs that go out.
unfoldable pub replies : List Message → List Message
replies [] = []
replies (ping sequence timestamp_ms ∷ msgs) = pong sequence timestamp_ms ∷ replies msgs
replies (msg ∷ msgs) = replies msgs

-- Each message has gone to the one queue for it, at its end.
abbrev pub Queued : List Message → PeerConnection → PeerConnection → Type 0
Queued msgs c c' =
    (c'.request_rx ≡ c.request_rx ++ filter is_request msgs)
    × (c'.response_rx ≡ c.response_rx ++ filter is_response msgs)
    × (c'.manifest_rx ≡ c.manifest_rx ++ filter is_manifest msgs)
    × (c'.pong_rx ≡ c.pong_rx ++ pongs msgs)
    × (c'.written ≡ c.written ++ replies msgs)

on_read-Queued : (msg : Message) (c : PeerConnection) → Queued (msg ∷ []) c (on_read msg c)
unfolding on_read pongs replies
on_read-Queued (ping sequence timestamp_ms) c = grind (arith, append-nil)
on_read-Queued (pong sequence timestamp_ms) c = grind (arith, append-nil)
on_read-Queued (manifest_resp folder_id events latest) c = grind (arith, append-nil)
on_read-Queued (transfer_init_ack transfer_id accepted existing reason) c =
    grind (arith, append-nil)
on_read-Queued (transfer_chunk_ack transfer_id chunk_index accepted) c = grind (arith, append-nil)
on_read-Queued (transfer_complete_ack transfer_id verified error) c = grind (arith, append-nil)
on_read-Queued msg c = grind (arith, append-nil)

joined :
    {A : Type 0} (q a b : List A) {ab q' q'' : List A}
    → ab ≡ a ++ b
    → q' ≡ q ++ a
    → q'' ≡ q' ++ b
    → q'' ≡ q ++ ab
joined q a b {ab} {q'} {q''} split first rest = grind (arith, append_assoc)

filter_split :
    (p : Message → Bool) (msg : Message) (msgs : List Message)
    → filter p (msg ∷ msgs) ≡ filter p (msg ∷ []) ++ filter p msgs
filter_split p msg msgs = ground arith

pongs_split :
    (msg : Message) (msgs : List Message) → pongs (msg ∷ msgs) ≡ pongs (msg ∷ []) ++ pongs msgs
unfolding pongs
pongs_split (pong sequence timestamp_ms) msgs = refl
pongs_split msg msgs = refl

replies_split :
    (msg : Message) (msgs : List Message)
    → replies (msg ∷ msgs) ≡ replies (msg ∷ []) ++ replies msgs
unfolding replies
replies_split (ping sequence timestamp_ms) msgs = refl
replies_split msg msgs = refl

-- The reader task takes what comes, up to the first frame that cannot be decoded, and puts every
-- message at the end of the one queue for it, in the order of arrival: answers to transfers,
-- manifests and all other requests in their three queues, pongs in theirs, and for a ping the pong
-- that answers it among what is written.
pub run_reader-Queued :
    (frames : List (Option Message)) (c : PeerConnection)
    → Queued (decoded frames) c (run_reader frames c)
unfolding run_reader decoded pongs replies
run_reader-Queued [] c = grind (arith, append-nil)
run_reader-Queued (none ∷ later) c = grind (arith, append-nil)
run_reader-Queued (some msg ∷ later) c =
    let (requests, responses, manifests, ponged, replied) = on_read-Queued msg c in
    let (requests', responses', manifests', ponged', replied') =
      run_reader-Queued later (on_read msg c) in
    let msgs = decoded later in
    (
      joined c.request_rx _ _ (filter_split is_request msg msgs) requests requests',
      joined c.response_rx _ _ (filter_split is_response msg msgs) responses responses',
      joined c.manifest_rx _ _ (filter_split is_manifest msg msgs) manifests manifests',
      joined c.pong_rx _ _ (pongs_split msg msgs) ponged ponged',
      joined c.written _ _ (replies_split msg msgs) replied replied',
    )
