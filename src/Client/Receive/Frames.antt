-- ===== src/Client/Receive/Frames.antt =====
-- A frame of the agent on the client's screen.
use remote_access_platform.Prelude.{
  ℕ, ltb, lt→ltb, if-true, ◌&&◌, ◌*◌, ◌+◌, ◌/◌, ◌%◌, ◌^◌, ◌≤◌, ◌<◌, ◌≡◌, inl, inr, refl, ap, ◌∙◌,
  List, [], ◌∷◌, true, false, some, length, length-append, drop, take-all, is_empty, arith,
  Option-cases,
}
use native.Mathlib.Nat.{mod-eq_of_lt, le_refl}
use mathlib.Core.List.{append-nil}
use remote_access_platform.Memory.{store, load, load-store, length-store}
use remote_access_platform.Protocol.{Packet, encode, decode, parsed}
use remote_access_platform.Protocol.Payload.{frame_header}
use remote_access_platform.Protocol.RoundTrip.{packet_of, decode-encode, length-encode}
use remote_access_platform.Qt.{Text, byte_array_whole}
use remote_access_platform.Agent.{nonce_of}
use remote_access_platform.Capture.Backend.{FrameData}
use remote_access_platform.Agent.Frames.{frame_plaintext, frame_bytes}
use remote_access_platform.Client.{Session, Image, updated_frame, session_key, put}
use remote_access_platform.Client.Receive.{
  Desk, opened, image_of, pixels_of, show_frame, on_frame, with_plaintext, on_packet,
}

-- A frame that the formats can hold.
pub record FitsFrame (compress : List ℕ → List ℕ) (frame : FrameData) : Type 0 where
  pub row_fits : frame.width * 4 < 2 ^ 31
  pub height_fits : frame.height < 2 ^ 31
  pub number_fits : frame.frame_number < 2 ^ 64
  pub time_fits : frame.timestamp_us < 2 ^ 64
  pub size_fits : length (compress frame.pixel_data) + 56 < 2 ^ 31
  pub whole : length frame.pixel_data ≡ frame.width * 4 * frame.height
  pub has_width : 0 < frame.width
  pub has_height : 0 < frame.height
  pub has_pixels : is_empty frame.pixel_data ≡ false

module _ (desk : Desk) (compress : List ℕ → List ℕ) (frame : FrameData) where
  plaintext : List ℕ
  plaintext = frame_plaintext desk.cipher compress session_key frame

  comp_size :
      FitsFrame compress frame
      → length (compress frame.pixel_data) % 2 ^ 32 ≡ length (compress frame.pixel_data)
  comp_size f = mod-eq_of_lt (omega (arith, f.size_fits))

  length-plaintext :
      FitsFrame compress frame → length plaintext ≡ 12 + length (compress frame.pixel_data)
  unfolding plaintext frame_plaintext
  length-plaintext f =
      rw
        (
          comp_size f,
          take-all (length (compress frame.pixel_data)) (compress frame.pixel_data) (le_refl _),
        )
        (simp (length-append, length-store) (omega arith))

  -- What the client reads out of the plaintext.
  record Reads : Type 0 where
    reads_width : load 4 plaintext ≡ frame.width
    reads_height : load 4 (drop 4 plaintext) ≡ frame.height
    reads_pixels : drop 12 plaintext ≡ compress frame.pixel_data

  plaintext-Reads : FitsFrame compress frame → Reads
  unfolding plaintext frame_plaintext store
  plaintext-Reads f = record {
    reads_width = load-store 4 frame.width _ (omega (arith, f.row_fits));
    reads_height = load-store 4 frame.height _ (omega (arith, f.height_fits));
    reads_pixels =
        rw (comp_size f)
          (take-all (length (compress frame.pixel_data)) (compress frame.pixel_data) (le_refl _));
  }

  abbrev pub shown : Session → Session
  shown s =
      put
        (updated_frame
          (record { pixels = frame.pixel_data; width = frame.width; height = frame.height }))
        (record s { received_frames = (s.received_frames + 1) % 2 ^ 64 })

  pixels_of-plaintext :
      FitsFrame compress frame
      → desk.uncompress (compress frame.pixel_data) ≡ frame.pixel_data
      → pixels_of desk plaintext ≡ frame.pixel_data
  unfolding pixels_of
  pixels_of-plaintext f u =
      let r = plaintext-Reads f in
      let whole : desk.uncompress (drop 12 plaintext) ≡ frame.pixel_data =
        ap desk.uncompress r.reads_pixels ∙ u in
      let full = f.has_pixels in ground (arith, whole, full)

  image_of-whole :
      FitsFrame compress frame
      → image_of desk frame.pixel_data frame.width frame.height
        ≡ record { pixels = frame.pixel_data; width = frame.width; height = frame.height }
  unfolding image_of
  image_of-whole f =
      let fits = ltb_and (frame.width * 4) frame.height f.row_fits f.height_fits in
      if-true _ _ fits
      ∙ ap as_image
          (take-all (frame.width * 4 * frame.height) frame.pixel_data (omega (arith, f.whole)))
    where
      as_image : List ℕ → Image
      as_image l = record { pixels = l; width = frame.width; height = frame.height }

      ltb_and : (a b : ℕ) → a < 2 ^ 31 → b < 2 ^ 31 → (ltb a (2 ^ 31) && ltb b (2 ^ 31)) ≡ true
      ltb_and a b h k = rw (lt→ltb a (2 ^ 31) h) (lt→ltb b (2 ^ 31) k)

  on_frame-plaintext :
      (s : Session)
      → FitsFrame compress frame
      → desk.uncompress (compress frame.pixel_data) ≡ frame.pixel_data
      → desk.has_frame_provider ≡ true
      → on_frame desk plaintext s ≡ shown s
  unfolding on_frame show_frame
  on_frame-plaintext s f u provider =
      let r = plaintext-Reads f in
      let w = r.reads_width in
      let h = r.reads_height in
      let pixels = pixels_of-plaintext f u in
      let size = length-plaintext f in
      let w0 = f.has_width in
      let h0 = f.has_height in
      let full = f.has_pixels in
      let image = image_of-whole f in
      ground (arith, w, h, pixels, size, w0, h0, full, provider, image)

  -- A frame with four bytes for each of its pixels, whose packet is below 2 ^ 31 bytes and whose
  -- sizes an `int` holds, encrypted and encoded by the agent under the client's key, is a packet
  -- that makes the client show exactly that frame and count it, if uncompressing undoes
  -- compressing on its pixels, the client has a frame provider and drawing is not gated.
  pub on_packet-frame_bytes :
      (time : Text) (bytes : List ℕ) (s : Session)
      → FitsFrame compress frame
      → desk.uncompress (compress frame.pixel_data) ≡ frame.pixel_data
      → desk.has_frame_provider ≡ true
      → s.render_gated ≡ false
      → frame_bytes desk.cipher compress session_key frame ≡ some bytes
      → (p : Packet) × (decode bytes ≡ parsed p) × (on_packet desk time p s ≡ shown s)
  unfolding frame_bytes plaintext on_packet with_plaintext opened
  on_packet-frame_bytes time bytes s f u provider gate h =
      let n = frame.frame_number in
      elim (Option-cases (desk.cipher.encrypt plaintext session_key (nonce_of n))) [
        | inl e ↦ cc (rw (e, frame_bytes) at h)
        | inr (c, e) ↦
            (let length-c = desk.cipher.length-encrypt plaintext session_key (nonce_of n) c e in
              let size = length-plaintext f in
              let encoded = encode frame_header n (frame.timestamp_us / 1000) c in
              let all = byte_array_whole encoded (
                omega (
                  arith,
                  length-encode frame_header n (frame.timestamp_us / 1000) c
                      (omega (arith, length-c, size, f.size_fits)),
                  length-c,
                  size,
                  f.size_fits,
                )) in
              let sent : bytes ≡ encode frame_header n (frame.timestamp_us / 1000) c =
                ground (arith, e, all) in
              let full = nonempty c (omega (arith, length-c)) in
              let open_c = desk.cipher.decrypt-encrypt plaintext session_key (nonce_of n) c e in
              (
                packet_of frame_header n (frame.timestamp_us / 1000) c,
                rw (sent, ← append-nil (encode frame_header n (frame.timestamp_us / 1000) c))
                    (decode-encode frame_header n (frame.timestamp_us / 1000) c [] (record {
                      type_fits = omega arith;
                      sequence_number_fits = f.number_fits;
                      timestamp_ms_fits = omega (arith, f.time_fits);
                      payload_fits = omega (arith, length-c, size, f.size_fits);
                    })),
                ground (arith, full, gate, open_c) ∙ on_frame-plaintext s f u provider,
              ))
      ]
    where
      nonempty : (c : List ℕ) → 16 ≤ length c → is_empty c ≡ false
      nonempty [] l = absurd (omega arith)
      nonempty (x ∷ c) l = refl
