-- ===== src/Examples/Messages.antt =====
-- Messages in the buffers of the instances.
use redes1grupal.Examples.{stack}
use redes1grupal.Base.{◌++◌, ◌<◌, refl, zero, ◌∷◌, arith, suc, ◌≡◌, [], length, List, ℕ}
use redes1grupal.ErrorBuffers.{errbuf, get_error_message}
use redes1grupal.ErrorBuffers.Laws.{IsText, get_error_message-stored}
use redes1grupal.Memory.{write_bytes, Bytes}
use redes1grupal.JpcapSub.{max_number_of_instance}

abbrev ones : ℕ → List ℕ
ones zero = []
ones (suc n) = 1 ∷ ones n

length-ones : (n : ℕ) → length (ones n) ≡ n
length-ones zero = refl
length-ones (suc n) = omega (arith, length-ones n)

ones-IsText : (n : ℕ) → IsText (ones n)
ones-IsText zero = tt
ones-IsText (suc n) = (λ e. ground (arith, e), ones-IsText n)

abbrev store : ℕ → List ℕ → Bytes → Bytes
store a text f = write_bytes a (text ++ (0 ∷ [])) f

-- The message of instance 4 is lost.
get_error_message-stored_example :
    let g = store (errbuf 3) (ones 255) stack in
    (get_error_message 3 g ≡ ones 255)
    × (length (ones 255) < 255
        → (other : ℕ) → 3 < other
        → get_error_message other g ≡ get_error_message other stack)
    × (length (ones 255) ≡ 255 → 4 < max_number_of_instance → get_error_message 4 g ≡ [])
get_error_message-stored_example =
    get_error_message-stored store (record { writes = λ a text f h. refl }) 3 (ones 255) stack
      (omega arith) (omega (arith, length-ones 255)) (ones-IsText 255)
