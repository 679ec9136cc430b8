-- ===== src/ValueText/Buffer.antt =====
-- The buffer that `gconf_value_to_string` grows for a list: its size, and where the next byte goes,
-- each a `guint` of 32 bits. The block has three bytes more than `bufsize`.
use gconf_dbus.Prelude.{
  ℕ, ◌+◌, ◌*◌, ◌%◌, ◌^◌, ◌<◌, ◌≡◌, refl, ◌&&◌, Option, none, some, List, [], ◌∷◌, arith, ltb, leb,
  if◌then◌else◌, max_of,
}

-- What a `guint` keeps of a number.
abbrev pub to_guint : ℕ → ℕ
to_guint n = n % 2 ^ 32

pub record Buffer : Type 0 where
  pub bufsize : ℕ
  pub cur : ℕ

-- After `buf[0] = '['`.
abbrev pub start : Buffer
start = record { bufsize = 64; cur = 1 }

-- Room for an element of `len` bytes, the NUL and the comma.
unfoldable pub grow : Buffer → ℕ → Buffer
grow b len =
    if leb b.bufsize (to_guint (b.cur + len + 2))
    then record {
      bufsize = max_of (to_guint (b.bufsize * 2)) (to_guint (b.bufsize + len + 4));
      cur = b.cur;
    }
    else b

-- The size of the block: `bufsize + 3`.
abbrev pub block : Buffer → ℕ
block b = to_guint (b.bufsize + 3)

-- What follows the growing, for a text of `n` bytes, whose length is kept in `len`.
unfoldable pub put_element : Buffer → ℕ → ℕ → Option Buffer
put_element b n len =
    let behind = to_guint (b.cur + len) in
    let next = to_guint (behind + 1) in
    if ltb b.cur b.bufsize
      && (ltb (b.cur + n) (block b) && (ltb behind b.bufsize && ltb next b.bufsize))
    then some (record { bufsize = b.bufsize; cur = next })
    else none

-- One round of the loop, for an escaped text of `n` bytes: `none` where an assertion fails, or
-- `strcpy` writes behind the block.
unfoldable pub add_element : Buffer → ℕ → Option Buffer
unfolding grow put_element
add_element b n = put_element (grow b (to_guint n)) n (to_guint n)

-- The loop over the lengths of the escaped elements.
unfoldable pub add_elements : Buffer → List ℕ → Option Buffer
add_elements b [] = some b
add_elements b (n ∷ ns) = elim (add_element b n) [ none ↦ none | some b' ↦ add_elements b' ns ]

-- The bytes of the elements, with a comma behind each.
abbrev pub total : List ℕ → ℕ
total [] = 0
total (n ∷ ns) = n + 1 + total ns

-- The position lies in the buffer, and the size of the block is not wrapped.
pub record HasRoom (b : Buffer) : Type 0 where
  pub inside : b.cur < b.bufsize
  pub block_fits : b.bufsize + 3 < 2 ^ 32

grow-HasRoom :
    (b : Buffer) (len : ℕ)
    → HasRoom b
    → 2 * (b.cur + len) + 11 < 2 ^ 32
    → ((grow b len).cur ≡ b.cur)
      × (b.cur + len + 2 < (grow b len).bufsize)
      × ((grow b len).bufsize + 3 < 2 ^ 32)
unfolding grow
grow-HasRoom b len h k = (
  ground (arith),
  ground (arith, h.inside, h.block_fits, k),
  ground (arith, h.inside, h.block_fits, k),
)

add_element-fits :
    (b : Buffer) (n : ℕ)
    → HasRoom b
    → 2 * (b.cur + n) + 11 < 2 ^ 32
    → (b' : Buffer) × (add_element b n ≡ some b') × HasRoom b' × (b'.cur ≡ b.cur + n + 1)
unfolding add_element put_element
add_element-fits b n h k =
    let small : to_guint n ≡ n = omega (arith, k) in
    let (same, room, fits) = grow-HasRoom b n h k in
    (
      record { bufsize = (grow b n).bufsize; cur = b.cur + n + 1 },
      rw small (ground (arith, same, room, fits, k)),
      record { inside = ground (arith, room); block_fits = fits },
      refl,
    )

-- From a buffer with room, and as long as twice the position behind all that is written, and 9
-- more, is below 2 ^ 32, no assertion of the loop fails and nothing is written behind the block; at
-- the end the position lies inside the buffer, behind all that was written.
pub add_elements-fits :
    (b : Buffer) (ns : List ℕ)
    → HasRoom b
    → 2 * (b.cur + total ns) + 9 < 2 ^ 32
    → (b' : Buffer) × (add_elements b ns ≡ some b') × HasRoom b' × (b'.cur ≡ b.cur + total ns)
unfolding add_elements
add_elements-fits b [] h k = (b, refl, h, omega arith)
add_elements-fits b (n ∷ ns) h k =
    let (b1, e1, h1, c1) = add_element-fits b n h (omega (arith, k)) in
    let (b2, e2, h2, c2) = add_elements-fits b1 ns h1 (omega (arith, k, c1)) in
    (b2, rw (e1, add_elements) e2, h2, omega (arith, c1, c2))
