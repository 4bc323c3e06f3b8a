-- ===== src/Srspp/Receiver/Segments.antt =====
-- The segments of a message, delivered in turn
-- (crates/leodos-protocols/src/transport/srspp/machine/receiver/reassembly/fast.rs).
use leo_dos.Prelude.{
  ℕ, zero, suc, ◌+◌, ◌≤◌, ◌≡◌, refl, sym, ap, ap₂, ◌∙◌, inl, inr, Bool, true, false, not, Option,
  none, some, List, [], ◌∷◌, ◌++◌, arith, ltb, ◌==◌, if◌then◌else◌, Bool-cases, length, take, drop,
  length-append, slice, copy_at,
}
use mathlib.Core.List.{append_assoc}
use leo_dos.Prelude.Slices.{slice-copy_at_self, slice-copy_at_before, length-copy_at}
use leo_dos.Srspp.Sequence.{continuation, first, last}
use leo_dos.Srspp.Receiver.Reassembly.{
  ReceiverError, Reassembly, append_segment, deliver_packet, deliver, take_message,
}
use leo_dos.Srspp.Receiver.Ordered.{Packet}

abbrev pub then_deliver :
    (Reassembly → Reassembly × Option ReceiverError)
    → Reassembly × Option ReceiverError
    → Reassembly × Option ReceiverError
then_deliver next (r, some e) = (r, some e)
then_deliver next (r, none) = next r

-- The deliveries of a list of packets, to the first error.
unfoldable pub deliver_all : Reassembly → List Packet → Reassembly × Option ReceiverError
unfolding deliver
deliver_all r [] = (r, none)
deliver_all r (p ∷ ps) = then_deliver (λ r'. deliver_all r' ps) (deliver r p.flags p.payload)

-- The packets of a message after its first.
abbrev pub rest_of_message : List (List ℕ) → List ℕ → List Packet
rest_of_message [] end = record { flags = last; payload = end } ∷ []
rest_of_message (q ∷ qs) end = record { flags = continuation; payload = q } ∷ rest_of_message qs end

abbrev pub message_packets : List ℕ → List (List ℕ) → List ℕ → List Packet
message_packets start qs end = record { flags = first; payload = start } ∷ rest_of_message qs end

abbrev pub rest_bytes : List (List ℕ) → List ℕ → List ℕ
rest_bytes [] end = end
rest_bytes (q ∷ qs) end = q ++ rest_bytes qs end

-- A message begun, of which the bytes `so_far` came.
pub record Begun (size : ℕ) (so_far : List ℕ) (r : Reassembly) : Type 0 where
  room : length r.reassembly ≡ size
  running : r.reassembly_in_progress ≡ true
  position : r.reassembly_len ≡ length so_far
  bytes : slice r.reassembly 0 (length so_far) ≡ so_far
  inside : length so_far ≤ size

take-none : (n : ℕ) → ◌≡◌ {A = List ℕ} (take n []) []
take-none zero = refl
take-none (suc n) = refl

take-add : (a b : ℕ) (xs : List ℕ) → take (a + b) xs ≡ take a xs ++ take b (drop a xs)
take-add zero b xs = ap (λ n. take n xs) (omega arith)
take-add (suc a) b [] = take-none (suc a + b) ∙ sym (take-none b)
take-add (suc a) b (x ∷ xs) =
    ap (λ n. take n (x ∷ xs)) (next a b) ∙ ap (λ ys. x ∷ ys) (take-add a b xs)
  where
    next : (a b : ℕ) → suc a + b ≡ suc (a + b)
    next a b = omega arith

-- Bytes written behind those that came.
slice-appended :
    (size : ℕ) (so_far : List ℕ) (r : Reassembly) (p : List ℕ)
    → Begun size so_far r
    → length so_far + length p ≤ size
    → slice (copy_at r.reassembly r.reassembly_len p) 0 (length (so_far ++ p)) ≡ so_far ++ p
slice-appended size so_far r p b h =
    let inside : r.reassembly_len ≤ length r.reassembly =
      omega (arith, b.position, b.room, b.inside) in
    ap (take' r p) (length-append so_far p)
    ∙ take-add (length so_far) (length p) (copy_at r.reassembly r.reassembly_len p)
    ∙ ap₂ (λ xs ys. xs ++ ys)
        (slice-copy_at_before r.reassembly r.reassembly_len p 0 (length so_far)
            (omega (arith, b.position)) inside
          ∙ b.bytes)
        (ap (λ n. take (length p) (drop n (copy_at r.reassembly r.reassembly_len p)))
            (sym b.position)
          ∙ slice-copy_at_self r.reassembly r.reassembly_len p
              (omega (arith, b.position, b.room, h)))
  where
    take' : Reassembly → List ℕ → ℕ → List ℕ
    take' r p n = take n (copy_at r.reassembly r.reassembly_len p)

-- A segment that fits is appended.
appended :
    (size : ℕ) (so_far : List ℕ) (r : Reassembly) (ends : Bool) (p : List ℕ)
    → Begun size so_far r
    → length so_far + length p ≤ size
    → append_segment r ends p ≡ (
      record {
        reassembly = copy_at r.reassembly r.reassembly_len p;
        reassembly_len = r.reassembly_len + length p;
        reassembly_in_progress = not ends;
        complete_message_len =
            if ends then some (r.reassembly_len + length p) else r.complete_message_len;
      },
      none,
    )
unfolding append_segment
appended size so_far r ends p b h = rw (b.running, fits) refl
  where
    fits : ltb (length r.reassembly) (r.reassembly_len + length p) ≡ false
    fits = ground (arith, b.position, b.room, h)

continued-Begun :
    (size : ℕ) (so_far : List ℕ) (r : Reassembly) (p : List ℕ)
    → Begun size so_far r
    → length so_far + length p ≤ size
    → Begun size (so_far ++ p) (append_segment r false p).0
continued-Begun size so_far r p b h = rw (appended size so_far r false p b h) (record {
  room = length-copy_at r.reassembly r.reassembly_len p ∙ b.room;
  running = refl;
  position = ap (λ n. n + length p) b.position ∙ sym (length-append so_far p);
  bytes = slice-appended size so_far r p b h;
  inside = omega (arith, length-append so_far p, h);
})

abbrev pub Received : Reassembly × Option ReceiverError → List ℕ → Type 0
Received (r, e) message = (e ≡ none) × ((take_message r).1 ≡ some message)

deliver-last : (r : Reassembly) (p : List ℕ) → deliver r last p ≡ append_segment r true p
unfolding deliver deliver_packet
deliver-last r p = elim (Bool-cases (length p == 0)) [ inl e ↦ rw e refl | inr e ↦ rw e refl ]

deliver-continuation :
    (r : Reassembly) (p : List ℕ) → deliver r continuation p ≡ append_segment r false p
unfolding deliver deliver_packet
deliver-continuation r p = elim (Bool-cases (length p == 0)) [
  | inl e ↦ rw e refl
  | inr e ↦ rw e refl
]

continues :
    (size : ℕ) (so_far : List ℕ) (r : Reassembly) (p : List ℕ)
    → Begun size so_far r
    → length so_far + length p ≤ size
    → deliver r continuation p ≡ ((append_segment r false p).0, none)
continues size so_far r p b h =
    deliver-continuation r p
    ∙ (λ i. ((append_segment r false p).0, (appended size so_far r false p b h i).1))

rest-Received :
    (size : ℕ) (qs : List (List ℕ)) (end so_far : List ℕ) (r : Reassembly)
    → Begun size so_far r
    → length so_far + length (rest_bytes qs end) ≤ size
    → Received (deliver_all r (rest_of_message qs end)) (so_far ++ rest_bytes qs end)
unfolding deliver_all take_message
rest-Received size [] end so_far r b h =
    rw (deliver-last r end ∙ appended size so_far r true end b h) (
      refl,
      ap some (
          ap (λ n. slice (copy_at r.reassembly r.reassembly_len end) 0 n)
            (ap (λ n. n + length end) b.position ∙ sym (length-append so_far end))
          ∙ slice-appended size so_far r end b h),
    )
rest-Received size (q ∷ qs) end so_far r b h =
    let room : length so_far + length q + length (rest_bytes qs end) ≤ size =
      omega (arith, h, length-append q (rest_bytes qs end)) in
    rw
      (
        continues size so_far r q b (omega (arith, room)),
        sym (append_assoc so_far q (rest_bytes qs end)),
      )
      (rest-Received size qs end (so_far ++ q) (append_segment r false q).0
        (continued-Begun size so_far r q b (omega (arith, room)))
        (omega (arith, room, length-append so_far q)))

abbrev begun : Reassembly → List ℕ → Reassembly
begun r p = record {
  reassembly = copy_at r.reassembly 0 p;
  reassembly_len = length p;
  reassembly_in_progress = true;
  complete_message_len = none;
}

deliver-first :
    (r : Reassembly) (p : List ℕ)
    → length p ≤ length r.reassembly
    → deliver r first p ≡ (begun r p, none)
unfolding deliver deliver_packet
deliver-first r p h =
    let fits : ltb (length r.reassembly) (length p) ≡ false = ground (arith, h) in
    elim (Bool-cases (length p == 0)) [ inl e ↦ rw (e, fits) refl | inr e ↦ rw (e, fits) refl ]

begun-Begun :
    (r : Reassembly) (p : List ℕ)
    → length p ≤ length r.reassembly
    → Begun (length r.reassembly) p (begun r p)
begun-Begun r p h = record {
  room = length-copy_at r.reassembly 0 p;
  running = refl;
  position = refl;
  bytes = slice-copy_at_self r.reassembly 0 p (omega (arith, h));
  inside = h;
}

-- The packets of a message in two segments or more that fits the buffer, delivered in turn, whatever
-- was in the buffer before, cause no error, and the message is their bytes in order.
pub message-Received :
    (r : Reassembly) (start : List ℕ) (qs : List (List ℕ)) (end : List ℕ)
    → length start + length (rest_bytes qs end) ≤ length r.reassembly
    → Received (deliver_all r (message_packets start qs end)) (start ++ rest_bytes qs end)
unfolding deliver_all
message-Received r start qs end h =
    let fits : length start ≤ length r.reassembly = omega (arith, h) in
    rw (deliver-first r start fits) (
      rest-Received (length r.reassembly) qs end start (begun r start) (begun-Begun r start fits) h)
