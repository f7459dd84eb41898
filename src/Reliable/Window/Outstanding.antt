-- ===== src/Reliable/Window/Outstanding.antt =====
-- What a reliable link has still to deliver: the messages in its window, which were sent and not
-- acknowledged, and then those in the buffer in front of the window; and when the two are in order.
use spines.Prelude.{
  ℕ, zero, suc, ◌+◌, ◌-◌, ◌%◌, ◌^◌, ◌≤◌, ◌<◌, ◌≡◌, refl, Bool, true, false, Option, none, some,
  List, [], ◌∷◌, ◌++◌, map, ◌==◌, arith,
}
use spines.Realtime.{store}
use spines.Reliable.{max_window}
use spines.Reliable.Window.{Floats, BufferCell, RelData, has_room}

-- A message: its contents and its length.
abbrev pub Item : Type 0
Item = Option ℕ × ℕ

abbrev pub item : BufferCell → Item
item c = (c.buff, c.data_len)

-- That many messages of a window, from a number on.
abbrev pub items : ℕ → ℕ → (ℕ → BufferCell) → List Item
items zero i w = []
items (suc n) i w = item (w (i % max_window)) ∷ items n (suc i) w

abbrev pub in_window : {F : Type 0} → RelData F → List Item
in_window s = items (s.head - s.tail) s.tail s.window

abbrev pub outstanding : {F : Type 0} → RelData F → List Item
outstanding s = in_window s ++ map item s.msg_buff

abbrev pub is_some : {A : Type 0} → Option A → Bool
is_some none = false
is_some (some a) = true

-- The messages in front are numbered from one number up to another.
abbrev pub Numbered : ℕ → List BufferCell → ℕ → Type 0
Numbered first [] last = first ≡ last
Numbered first (c ∷ cs) last =
    (c.seq_no ≡ first) × (is_some c.buff ≡ true) × Numbered (suc first) cs last

pub Numbered-le :
    (first : ℕ) (cs : List BufferCell) (last : ℕ) → Numbered first cs last → first ≤ last
Numbered-le first [] last h = omega arith
Numbered-le first (c ∷ cs) last (e, b, h) = omega (arith, Numbered-le (suc first) cs last h)

pub Numbered-snoc :
    (first : ℕ) (cs : List BufferCell) (last : ℕ) (c : BufferCell)
    → Numbered first cs last
    → c.seq_no ≡ last
    → is_some c.buff ≡ true
    → Numbered first (cs ++ (c ∷ [])) (suc last)
Numbered-snoc first [] last c h e b = ground arith
Numbered-snoc first (x ∷ xs) last c (e', b', h) e b =
    (e', b', Numbered-snoc (suc first) xs last c h e b)

-- The window holds the message of that number.
abbrev pub Holds : (ℕ → BufferCell) → ℕ → Type 0
Holds w i = ((w (i % max_window)).seq_no ≡ i) × (is_some (w (i % max_window)).buff ≡ true)

module _ (fl : Floats) where
  open fl use {Float, float, lt}

  -- The window and the messages `rest` in front of it are in order: the numbers run on from the tail
  -- to the number `last`, each number in the window has a cell of its own with its message, no cell holds
  -- a message that was not sent, and the
  -- congestion window is within the window's size.
  pub record Order (tail head last max_size : ℕ) (window_size : Float) (window : ℕ → BufferCell)
      (rest : List BufferCell) : Type 0 where
    pub ordered : tail ≤ head
    pub fits : head ≤ tail + max_window
    pub numbered : Numbered head rest last
    pub below : last < 2 ^ 32
    pub size : max_size ≤ max_window
    pub within : lt (float max_size) window_size ≡ false
    pub held : (i : ℕ) → tail ≤ i → i < head → Holds window i
    pub stored : (j : ℕ) → is_some (window j).buff ≡ true → (window j).seq_no < head

  abbrev pub Waits : RelData Float → ℕ → List BufferCell → Type 0
  Waits s last rest = Order s.tail s.head last s.max_size s.window_size s.window rest

  abbrev pub IsInOrder : RelData Float → Type 0
  IsInOrder s = Waits s s.seq_no s.msg_buff

  pub has_room-lt :
      (s : RelData Float) {last : ℕ} {rest : List BufferCell}
      → Waits s last rest
      → has_room fl s ≡ true
      → s.head < s.tail + max_window
  unfolding has_room
  has_room-lt s w h =
      let less =
        fl.exact (s.head - s.tail) s.max_size s.window_size (omega (arith, w.size)) w.within h in
      omega (arith, w.size, w.ordered)

-- A message that is placed behind the last one of the window.
pub items-store :
    (n i j : ℕ) (w : ℕ → BufferCell) (c : BufferCell)
    → j ≡ i + n
    → n < max_window
    → items (suc n) i (store w (j % max_window) c) ≡ items n i w ++ (item c ∷ [])
items-store zero i j w c e lt =
    let same : (j % max_window == i % max_window) ≡ true = ground arith in rw same refl
items-store (suc n) i j w c e lt =
    let apart : (j % max_window == i % max_window) ≡ false = ground arith in
    rw (items-store n (suc i) j w c (omega arith) (omega arith), apart) refl

-- Cells that agree in their messages give the same.
pub items-same :
    (n i : ℕ) (w w' : ℕ → BufferCell)
    → ((j : ℕ) → i ≤ j → j < i + n → item (w' (j % max_window)) ≡ item (w (j % max_window)))
    → items n i w' ≡ items n i w
items-same zero i w w' h = refl
items-same (suc n) i w w' h =
    rw
      (
        h i (omega arith) (omega arith),
        items-same n (suc i) w w' (λ j lo hi. h j (omega arith) (omega arith)),
      )
      refl
