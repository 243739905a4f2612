-- ===== src/Robotalk/Tests.antt =====
-- ROBOTalk over a serial line that gives one packet; the last packet sent is kept.
use denso_robot_ros.Prelude.{
  ℕ, ◌≡◌, refl, List, [], ◌∷◌, ◌++◌, some, length, drop, replicate, true, false, arith,
}
use denso_robot_ros.Hresult.{ok, s_ok, e_invalidpacket}
use denso_robot_ros.Device.{conn_com}
use denso_robot_ros.Robotalk.{Buf, Line, rtk_cmd_nak, param2packet, send}
use denso_robot_ros.Robotalk.Frame.{be_bytes_2, head, frame, send-frame}
use denso_robot_ros.Robotalk.Receive.{Peer, recv}
use denso_robot_ros.Robotalk.RoundTrip.{received_frame, recv-frame}
use denso_robot_ros.Robotalk.Refusals.{recv-corrupted}

abbrev line : Line (List ℕ)
line = record { dn_send = λ bs w. (s_ok, bs); dn_recv = λ room w. (s_ok, w, 0, []) }

abbrev params : List ℕ
params = 1 ∷ 2 ∷ 3 ∷ []

abbrev peer : Peer
peer = record { addr = 9; flag_init = false }

abbrev zeros : Buf
zeros = replicate 256 0

send-frame_example :
    (packet : Buf) × (param2packet 0x1234
        (some params)
        3
        7
        8
        (0 ∷ 0 ∷ 0 ∷ 0 ∷ 0 ∷ 0 ∷ replicate 250 0)
      ≡ ok packet)
    × (send line packet [] ≡ ok (line.dn_send (frame 0x1234 7 8 params) []))
send-frame_example =
    send-frame line 0x1234 7 8 params (replicate 250 0) 0 0 0 0 0 0 [] (omega arith)

recv-frame_example :
    recv line conn_com true 2 5 9 zeros (frame 0x1234 7 8 params)
    ≡ ok (record {
      hr = s_ok;
      packet = received_frame 0x1234 7 8 params zeros;
      peer = peer;
      world = [];
    })
recv-frame_example =
    recv-frame line conn_com true 0 5 9 0x1234 7 8 0 params zeros peer (frame 0x1234 7 8 params) []
      (omega arith) refl refl

recv-corrupted_example :
    recv line conn_com true 2 0 9 zeros (head 0x1234 7 8 params ++ be_bytes_2 5)
    ≡ ok (record {
      hr = e_invalidpacket;
      packet =
          head 0x1234 7 8 params
          ++ be_bytes_2 5
          ++ drop (length (head 0x1234 7 8 params ++ be_bytes_2 5)) zeros;
      peer = peer;
      world = (line.dn_send (frame rtk_cmd_nak 7 8 []) []).1;
    })
recv-corrupted_example =
    recv-corrupted line conn_com true 0 9 0x1234 7 8 0 5 params zeros peer
      (head 0x1234 7 8 params ++ be_bytes_2 5) [] (omega arith) (omega arith) (ground arith) refl
      refl refl
