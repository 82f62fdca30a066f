-- ===== src/Http2/Frames/Laws.antt =====
-- What the frames of Cutelyst/Server/protocolhttp2.cpp change, and what is read of them.
use cutelyst.Common.{ℕ, ◌==◌, ◌++◌, Bytes, List, [], length, Bool-cases, inl, inr, ◌≡◌, refl}
use cutelyst.Http2.Frames.{
  Connection, Takes, be32, frame_header, send_frame, send_go_away, send_rst_stream, send_settings,
  send_settings_ack, send_ping,
}

-- A frame changes nothing but what was written.
send_frame-out :
    (takes : Takes) (type_ flags id : ℕ) (bytes : Bytes) (c : Connection)
    → (out : Bytes) × ((send_frame takes type_ flags id bytes c).0 ≡ record c { out = out })
unfolding send_frame
send_frame-out takes type_ flags id bytes c =
    let header = frame_header type_ flags id (length bytes) in
    elim (Bool-cases (takes c.out header)) [
      | inr e ↦ (c.out, rw e refl)
      | inl e ↦ elim (Bool-cases (length bytes == 0)) [
        | inl z ↦ (c.out ++ header, rw e (rw z refl))
        | inr z ↦ elim (Bool-cases (takes (c.out ++ header) bytes)) [
          | inl w ↦ (c.out ++ header ++ bytes, rw e (rw z (rw w refl)))
          | inr w ↦ (c.out ++ header, rw e (rw z (rw w refl)))
        ]
      ]
    ]

-- A connection that differs in what was written only.
abbrev pub Writes : Connection → Connection → Type 0
Writes c c' = (out : Bytes) × (c' ≡ record c { out = out })

module _ (takes : Takes) (c : Connection) where
  pub send_go_away-Writes : (error : ℕ) → Writes c (send_go_away takes error c).0
  unfolding send_go_away
  send_go_away-Writes error = send_frame-out takes 7 0 0 (be32 c.max_stream_id ++ be32 error) c

  pub send_rst_stream-Writes : (id error : ℕ) → Writes c (send_rst_stream takes id error c).0
  unfolding send_rst_stream
  send_rst_stream-Writes id error = send_frame-out takes 3 0 id (be32 error) c

  pub send_settings-Writes : (settings : List (ℕ × ℕ)) → Writes c (send_settings takes settings c).0
  unfolding send_settings
  send_settings-Writes settings = send_frame-out takes 4 0 0 _ c

  pub send_settings_ack-Writes : Writes c (send_settings_ack takes c).0
  unfolding send_settings_ack
  send_settings_ack-Writes = send_frame-out takes 4 1 0 [] c

  pub send_ping-Writes : (flags : ℕ) (bytes : Bytes) → Writes c (send_ping takes flags bytes c).0
  unfolding send_ping
  send_ping-Writes flags bytes = send_frame-out takes 6 flags 0 bytes c
