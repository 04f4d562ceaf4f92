-- ===== src/Network/Socket/Receiving.antt =====
-- Network/Socket.cpp: a packet that arrives whole.
use flakkari.Prelude.{
  ℕ, zero, suc, ◌+◌, ◌-◌, length-append, length-take_le, ◌≡◌, ◌≤◌, refl, ap, sym, ◌∙◌, [], ◌∷◌,
  ◌++◌, append-nil, true, false, some, ◌==◌, arith, ok, length, take, replicate, Bytes,
}
use flakkari.Network.Address.{Address, Peer, Resolver, new_address_storage}
use flakkari.Network.Socket.{
  Kernel, Socket, fill, get_ip_type_from_family, receive_from, each_message, receive_batch,
}
use flakkari.Protocol.Packet.{Packet, serialize, deserialize}
use flakkari.Protocol.Packet.Codec.{IsValid, deserialize-serialize}

take_of_le : (n : ℕ) (b : Bytes) → length b ≤ n → take n b ≡ b
take_of_le zero [] h = refl
take_of_le (suc n) [] h = refl
take_of_le zero (x ∷ b) h = absurd (omega arith)
take_of_le (suc n) (x ∷ b) h = ap (λ t. x ∷ t) (take_of_le n b (omega arith))

take_past :
    (n : ℕ) (front rest : Bytes) → take (length front + n) (front ++ rest) ≡ front ++ take n rest
take_past n [] rest = let e : 0 + n ≡ n = omega arith in ap (λ k. take k rest) e
take_past n (x ∷ front) rest =
    let e : length (x ∷ front) + n ≡ suc (length front + n) = omega arith in
    ap (λ k. take k (x ∷ front ++ rest)) e ∙ ap (λ t. x ∷ t) (take_past n front rest)

-- A datagram that fits into the buffer is followed by zeros; of a longer one the end is cut off.
pub fill_of_le : (n : ℕ) (b : Bytes) → length b ≤ n → fill n b ≡ b ++ replicate (n - length b) 0
unfolding fill
fill_of_le n b h = ap (λ c. c ++ replicate (n - length c) 0) (take_of_le n b h)

pub fill_past :
    (n : ℕ) (front rest : Bytes)
    → n ≤ length rest
    → fill (length front + n) (front ++ rest) ≡ front ++ take n rest
unfolding fill
fill_past n front rest h =
    let cut = take_past n front rest in
    let full : (length front + n) - length (front ++ take n rest) ≡ 0 =
      omega (arith, length-append front (take n rest), length-take_le n rest h) in
    ap (λ c. c ++ replicate ((length front + n) - length c) 0) cut
    ∙ ap (λ z. (front ++ take n rest) ++ replicate z 0) full
    ∙ append-nil (front ++ take n rest)

module _ {W : Type 0} (k : Kernel W) (res : Resolver) (s : Socket) (a : Address) (flags : ℕ) (w : W)
    (peer : Peer) (p old : Packet) where
  abbrev pub sender : Address
  sender = new_address_storage res peer a.socket_type (get_ip_type_from_family peer)

  -- A valid packet of no more than 4096 bytes, on a socket that has an address: whether the system hands it
  -- to `receiveFrom`, whose buffer is filled with zeros, or alone to `receiveBatch`, which cuts its buffer,
  -- the call returns it with the address of its sender, and `deserialize` reads the packet back.
  pub receive-serialize :
      (max_messages : ℕ) (w₁ w₂ : W)
      → IsValid p
      → length (serialize p) ≤ 4096
      → s.address ≡ some a
      → (max_messages == 0) ≡ false
      → k.recvfrom s.descriptor flags w ≡ (some (peer, serialize p), w₁)
      → k.recvmmsg s.descriptor max_messages flags w ≡ (some ((peer, serialize p) ∷ []), w₂)
      → (padded cut : Bytes) × (receive_from k res 4096 flags s w ≡ ok (some (sender, padded), w₁))
        × (receive_batch k res max_messages flags s w ≡ ((sender, cut) ∷ [], w₂))
        × (deserialize old padded ≡ ok (p, true))
        × (deserialize old cut ≡ ok (p, true))
  unfolding receive_from receive_batch each_message fill
  receive-serialize max_messages w₁ w₂ v fits bound some_messages one batch =
      let b = serialize p in
      let whole = take_of_le 4096 b fits in
      (
        fill 4096 b,
        take 4096 b,
        rw (one, bound) refl,
        rw (some_messages, batch, bound) refl,
        ap (λ c. deserialize old (c ++ replicate (4096 - length c) 0)) whole
            ∙ deserialize-serialize p old (replicate (4096 - length b) 0) v,
        ap (deserialize old) (whole ∙ sym (append-nil b)) ∙ deserialize-serialize p old [] v,
      )
