-- ===== src/ErrorBuffers/Laws.antt =====
-- Which messages the buffers keep apart.
use redes1grupal.ErrorBuffers.{errbuf, pcap_errbuf_size, read_string, get_error_message}
use redes1grupal.Base.{
  refl, inr, zero, ap, [], arith, ◌∷◌, ◌≡◌, ◌+◌, suc, ◌++◌, ◌<◌, ◌≢◌, ◌≤◌, length, All, ℕ, List,
}
use redes1grupal.Memory.{write_bytes, write8, Bytes, write_bytes}
use redes1grupal.JpcapSub.{max_number_of_instance}
use redes1grupal.Memory.Laws.{write_bytes_ne}

-- A text that a C string can hold.
abbrev pub IsText : List ℕ → Type 0
IsText = All (λ x. x ≢ 0)

read_string-written :
    (n a : ℕ) (text : List ℕ) (f : Bytes)
    → length text < n
    → IsText text
    → read_string n a (write_bytes a (text ++ (0 ∷ [])) f) ≡ text
unfolding read_string write_bytes write8
read_string-written zero a text f h t = absurd (omega arith)
read_string-written (suc n) a [] f h t = ground arith
read_string-written (suc n) a (x ∷ text) f h (x_set, t) = ground (
  arith,
  x_set,
  write_bytes_ne (a + 1) (text ++ (0 ∷ [])) (write8 a x f) a,
  read_string-written n (a + 1) text (write8 a x f) (omega arith) t,
)

-- Bytes that agree where a string is read give one string.
read_string-ext :
    (n a : ℕ) (f g : Bytes)
    → ((j : ℕ) → a ≤ j → j < a + n → f j ≡ g j)
    → read_string n a f ≡ read_string n a g
unfolding read_string
read_string-ext zero a f g same = refl
read_string-ext (suc n) a f g same =
    ground
      (arith, same a, read_string-ext n (a + 1) f g (λ j lo hi. same j (omega arith) (omega arith)))

length-ended : (text : List ℕ) → length (text ++ (0 ∷ [])) ≡ suc (length text)
length-ended [] = refl
length-ended (x ∷ text) = ap suc (length-ended text)

write_bytes-last :
    (a : ℕ) (text : List ℕ) (f : Bytes) → write_bytes a (text ++ (0 ∷ [])) f (a + length text) ≡ 0
unfolding write_bytes write8
write_bytes-last a [] f = ground arith
write_bytes-last a (x ∷ text) f =
    let shift : a + 1 + length text ≡ a + suc (length text) = omega arith in
    rw shift at (write_bytes-last (a + 1) text (write8 a x f))

read_string_empty : (n a : ℕ) (f : Bytes) → f a ≡ 0 → read_string n a f ≡ []
unfolding read_string
read_string_empty zero a f e = refl
read_string_empty (suc n) a f e = ground (arith, e)

-- What libpcap documents of a call that is passed a buffer at `a` and leaves the message `text`: it
-- writes the message there with a zero behind it, and nothing else.
pub record MessageLaws (store_message : ℕ → List ℕ → Bytes → Bytes) : Type 0 where
  pub writes :
      (a : ℕ) (text : List ℕ) (f : Bytes)
      → length text < pcap_errbuf_size
      → store_message a text f ≡ write_bytes a (text ++ (0 ∷ [])) f

module _ (store_message : ℕ → List ℕ → Bytes → Bytes) (laws : MessageLaws store_message) where
  own-stored :
      (id : ℕ) (text : List ℕ) (f : Bytes)
      → id < max_number_of_instance
      → length text < pcap_errbuf_size
      → IsText text
      → get_error_message id (store_message (errbuf id) text f) ≡ text
  unfolding get_error_message
  own-stored id text f small short t =
      rw (laws.writes (errbuf id) text f short)
        (read_string-written _ (errbuf id) text f (omega arith) t)

  others-kept :
      (id other : ℕ) (text : List ℕ) (f : Bytes)
      → length text < 255
      → id < other
      → get_error_message other (store_message (errbuf id) text f) ≡ get_error_message other f
  unfolding get_error_message
  others-kept id other text f short behind =
      rw (laws.writes (errbuf id) text f (omega (arith, short))) (
        read_string-ext _ (errbuf other) _ f (λ j lo hi.
          write_bytes_ne (errbuf id) (text ++ (0 ∷ [])) f j
            (inr (omega (arith, length-ended text)))))

  next-deleted :
      (id : ℕ) (text : List ℕ) (f : Bytes)
      → suc id < max_number_of_instance
      → length text ≡ 255
      → get_error_message (suc id) (store_message (errbuf id) text f) ≡ []
  unfolding get_error_message
  next-deleted id text f small long =
      let next : errbuf id + length text ≡ errbuf (suc id) = omega arith in
      let zero_there : write_bytes (errbuf id) (text ++ (0 ∷ [])) f (errbuf (suc id)) ≡ 0 =
        rw next at (write_bytes-last (errbuf id) text f) in
      rw (laws.writes (errbuf id) text f (omega (arith, long))) (read_string_empty _ _ _ zero_there)

  -- A message with no zero in it that fits in `PCAP_ERRBUF_SIZE` bytes with its zero, left by libpcap in
  -- the buffer of an instance below 255, is what `getErrorMessage` then returns for it. The messages
  -- of all instances behind it stay what they were if it is of at most 254 bytes; one of 255 bytes,
  -- which still fits, deletes that of the next instance below 255: the two dimensions of the array are
  -- swapped.
  pub get_error_message-stored :
      (id : ℕ) (text : List ℕ) (f : Bytes)
      → id < max_number_of_instance
      → length text < pcap_errbuf_size
      → IsText text
      → let g = store_message (errbuf id) text f in
        (get_error_message id g ≡ text)
        × (length text < 255
            → (other : ℕ) → id < other
            → get_error_message other g ≡ get_error_message other f)
        × (length text ≡ 255 → suc id < max_number_of_instance → get_error_message (suc id) g ≡ [])
  get_error_message-stored id text f small short t = (
    own-stored id text f small short t,
    λ shorter other behind. others-kept id other text f shorter behind,
    λ long next. next-deleted id text f next long,
  )
