-- ===== src/ArpTable/Keys.antt =====
-- The keys of the table: different addresses have different texts.
use redes1grupal.Base.{ℕ, ◌<◌, ◌≡◌, ◌≢◌, refl, arith, true, List, [], ◌∷◌, All}
use redes1grupal.ArpTable.{
  answered, handle, byte_to_str, to_hex, same_text, Directions, learn, handle_arp,
}
use redes1grupal.Packet.{Packet, ArpPacket}

pub same_text_refl : (xs : List ℕ) → same_text xs xs ≡ true
unfolding same_text
same_text_refl [] = refl
same_text_refl (x ∷ xs) = ground (arith, same_text_refl xs)

pub same_text_eq : (xs ys : List ℕ) → same_text xs ys ≡ true → xs ≡ ys
unfolding same_text
same_text_eq [] [] h = refl
same_text_eq [] (y ∷ ys) h = ground (arith, h)
same_text_eq (x ∷ xs) [] h = ground (arith, h)
same_text_eq (x ∷ xs) (y ∷ ys) h = ground (arith, h, same_text_eq xs ys)

-- The text of an address tells it apart from every other address.
pub byte_to_str-injective :
    (xs ys : List ℕ)
    → All (λ x. x < 256) xs
    → All (λ x. x < 256) ys
    → byte_to_str xs ≡ byte_to_str ys
    → xs ≡ ys
unfolding byte_to_str to_hex
byte_to_str-injective [] [] bx bys e = refl
byte_to_str-injective [] (y ∷ ys) bx (y_byte, bys) e = ground (arith, e)
byte_to_str-injective (x ∷ xs) [] (x_byte, bx) bys e = ground (arith, e)
byte_to_str-injective (x ∷ xs) (y ∷ ys) (x_byte, bx) (y_byte, bys) e =
    ground (arith, e, byte_to_str-injective xs ys bx bys)

-- The comparison with a new array is false, so that no message is answered.
pub handle-answers_nothing :
    (p : Packet) (mac : List ℕ) (directions : Directions) (a : ArpPacket)
    → handle p mac directions ≢ answered a
unfolding handle handle_arp learn
handle-answers_nothing p mac directions a e = ground (arith, e)
