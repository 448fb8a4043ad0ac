-- ===== src/JitterBuffer/Table.antt =====
-- The hash table of the packets: what src/source/PeerConnection/JitterBuffer.c calls of the library
-- that has it, and what that library documents.
use kvs_c.Base.{ℕ, ◌≡◌, ◌≢◌, Bool, true, false, Option, none, some}
use kvs_c.Status.{Status, success}
use kvs_c.Rtp.{RtpPacket}

-- hashTableGet (`none` is STATUS_HASH_KEY_NOT_PRESENT), hashTablePut and hashTableRemove.
pub record HashTable (T : Type 0) : Type 0 where
  pub get : T → ℕ → Option RtpPacket
  pub put : T → ℕ → RtpPacket → Status × T
  pub remove : T → ℕ → T

-- hashTableContains
abbrev pub contains : {T : Type 0} → HashTable T → T → ℕ → Bool
contains h t k = elim (h.get t k) [ none ↦ false | some p ↦ true ]

-- A key that is removed is gone, one that is put is there, and the others stay.
pub record IsHashTable (T : Type 0) (h : HashTable T) : Type 0 where
  pub removed : (t : T) (k : ℕ) → h.get (h.remove t k) k ≡ none
  pub remove_other : (t : T) (j k : ℕ) → j ≢ k → h.get (h.remove t j) k ≡ h.get t k
  pub stored :
      (t : T) (k : ℕ) (p : RtpPacket) → (h.put t k p).0 ≡ success → h.get (h.put t k p).1 k ≡ some p
  pub put_other : (t : T) (j k : ℕ) (p : RtpPacket) → j ≢ k → h.get (h.put t j p).1 k ≡ h.get t k
