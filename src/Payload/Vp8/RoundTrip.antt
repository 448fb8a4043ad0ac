-- ===== src/Payload/Vp8/RoundTrip.antt =====
-- The packets of a VP8 frame through depayVP8FromRtpPayload.
use kvs_c.Base.{
  ℕ, zero, suc, ◌+◌, ◌-◌, ◌^◌, ◌≤◌, ◌<◌, ◌≡◌, refl, ap, ◌∙◌, Bool, true, false, Option, none, some,
  List, [], ◌∷◌, ◌++◌, arith, length, length-take, length-replicate, replicate, drop, drop_all,
  ◌==◌, if◌then◌else◌, append-nil,
}
use kvs_c.Base.Bytes.{◌>>=◌, read_block_whole, write_at, write_at-append}
use kvs_c.Payload.Chunks.{chunk_loop, chunks, concat, concat-chunk_loop}
use kvs_c.Payload.Vp8.{control_bits, descriptor_length, depay_vp8}
use kvs_c.Payload.Vp8.Passes.{packets, frame_packets}

-- The data of one packet: the caller asks for its size, and then for the data in memory of that size.
pub depay_one : List ℕ → Option (List ℕ)
depay_one packet = do
  asked ← depay_vp8 packet (length packet) none 0
  given ← depay_vp8 packet (length packet) (some (replicate asked.length_out 0)) asked.length_out
  given.data_out

-- The data of the packets, one after the other.
pub depay_all : List (List ℕ) → Option (List ℕ)
depay_all [] = some []
depay_all (p ∷ ps) = do bytes ← depay_one p; rest ← depay_all ps; some (bytes ++ rest)

copied : (c : List ℕ) → write_at (replicate (length c) 0) 0 c ≡ some c
copied c =
    let n = length-replicate {A = ℕ} (length c) 0 in
    write_at-append [] (replicate (length c) 0) c 0 refl (omega (arith, n))
    ∙ rw (drop_all {A = ℕ} (length c) (replicate (length c) 0) (omega (arith, n)), append-nil c)

-- The data of a packet that has no more than the first byte of a descriptor.
depay_one-plain :
    (first : Bool) (c : List ℕ)
    → suc (length c) < 2 ^ 32
    → depay_one ((if first then 0x10 else 0) ∷ c) ≡ some c
unfolding depay_one depay_vp8 descriptor_length control_bits
depay_one-plain true c h = ground (arith, read_block_whole c (length c) refl, copied c)
depay_one-plain false c h = ground (arith, read_block_whole c (length c) refl, copied c)

-- Every piece fits a UINT32 with its descriptor.
abbrev AllFit : List (List ℕ) → Type 0
AllFit [] = Unit
AllFit (c ∷ cs) = (suc (length c) < 2 ^ 32) × AllFit cs

depay_all-packets :
    (i : ℕ) (cs : List (List ℕ)) → AllFit cs → depay_all (packets i cs) ≡ some (concat cs)
unfolding depay_all
depay_all-packets i [] h = refl
depay_all-packets i (c ∷ cs) (h, hs) =
    rw (depay_one-plain (i == 0) c h, depay_all-packets (i + 1) cs hs)

chunk_loop-AllFit : (f m : ℕ) (xs : List ℕ) → m + 1 < 2 ^ 32 → AllFit (chunk_loop f m xs)
chunk_loop-AllFit zero m xs h = tt
chunk_loop-AllFit (suc f) m [] h = tt
chunk_loop-AllFit (suc f) m (x ∷ xs) h =
    (omega (arith, length-take m (x ∷ xs)), chunk_loop-AllFit f m (drop m (x ∷ xs)) h)

-- The packets that `createPayloadForVP8` makes of a frame give the frame back, in order, when each is
-- read by `depayVP8FromRtpPayload`.
pub depay_all-frame_packets :
    (mtu : ℕ) (frame : List ℕ)
    → 2 ≤ mtu
    → mtu < 2 ^ 32
    → depay_all (frame_packets mtu frame) ≡ some frame
depay_all-frame_packets mtu frame h hm =
    depay_all-packets 0 (chunks (mtu - 1) frame)
      (chunk_loop-AllFit (length frame) (mtu - 1) frame (omega arith))
    ∙ ap some (concat-chunk_loop (length frame) (mtu - 1) frame (omega arith) (omega arith))
