-- ===== src/Frames/Region/Tiles.antt =====
-- `tile` and `add_region`: a run of frames becomes free blocks that cover it exactly.
use native.Mathlib.Nat.{div-add-mod}
use rumicos.Base.{
  ℕ, zero, suc, ◌+◌, ◌-◌, ◌*◌, ◌/◌, ◌%◌, ◌^◌, ◌≤◌, ◌<◌, ◌≡◌, refl, ◌∙◌, inl, inr, List, [], Option,
  some, arith, if◌then◌else◌, ltb, leb, ◌&&◌, ◌==◌, Bool-cases, replicate, min,
}
use rumicos.Frames.{Heap, Buddy, max_order, page_size}
use rumicos.Frames.Blocks.{bytes, bytes_pages, le-bytes, IsBlock, covered, pages}
use rumicos.Frames.Chains.{new-IsFreeList}
use rumicos.Frames.Lists.{
  IsStock, AreLists, Kept, put, levels_are, covered-put, pages-put, push_at_lem,
}
use rumicos.Frames.Alloc.{IsBuddy}
use rumicos.Frames.Region.{order_at, tile, add_region, new_node, node_or_new}

-- 1 if `start ≤ x < end`.
abbrev pub within : ℕ → ℕ → ℕ → ℕ
within x start end = if leb start x && ltb x end then 1 else 0

pub within_split : (x a m e : ℕ) → a ≤ m → m ≤ e → within x a e ≡ within x a m + within x m e
within_split x a m e le le' = ground arith

bytes-IsBlock :
    (o paddr : ℕ) → paddr % bytes o ≡ 0 → 0 < paddr → paddr + bytes o ≤ 2 ^ 44 → IsBlock o paddr
bytes-IsBlock o paddr even pos le = record {
  positive = pos;
  in_range = le;
  aligned = (paddr / bytes o, omega (arith, div-add-mod paddr (bytes o), even, swap));
}
  where
    swap : bytes o * (paddr / bytes o) ≡ paddr / bytes o * bytes o
    swap = grind arith

-- The order that is chosen fits: the block is aligned and within what is left.
pub order_at_lem :
    (n paddr remaining : ℕ)
    → paddr % 4096 ≡ 0
    → 0 < paddr
    → paddr + remaining ≤ 2 ^ 44
    → 4096 ≤ remaining
    → (order_at n paddr remaining ≤ n)
      × IsBlock (order_at n paddr remaining) paddr
      × (bytes (order_at n paddr remaining) ≤ remaining)
unfolding order_at
order_at_lem zero paddr remaining page pos le least =
    (omega arith, bytes-IsBlock 0 paddr page pos (omega (arith, le, least)), omega arith)
order_at_lem (suc o) paddr remaining page pos le least =
    let (few, block, fits) = order_at_lem o paddr remaining page pos le least in
    elim (Bool-cases (leb (bytes (suc o)) remaining)) [
      | inl small ↦ elim (Bool-cases (paddr % bytes (suc o) == 0)) [
        | inl even ↦
            rw (small, even)
              (
                omega arith,
                bytes-IsBlock (suc o) paddr (ground arith) pos (ground (arith, le)),
                ground arith,
              )
        | inr odd ↦ rw (small, odd) (omega (arith, few), block, fits)
      ]
      | inr large ↦ rw large (omega (arith, few), block, fits)
    ]

-- The free blocks now cover `[paddr, end)` too.
pub record Tiles (b : Buddy) (levels : List (List ℕ)) (paddr end : ℕ) (b' : Buddy) : Type 0 where
  pub levels' : List (List ℕ)
  pub stock : IsStock b' levels'
  pub cover : (x : ℕ) → covered x levels' ≡ covered x levels + within x paddr end
  pub count : pages levels' * 4096 + paddr ≡ pages levels * 4096 + end
  pub kept : Kept b b'

tile_lem :
    (n paddr end : ℕ) (b : Buddy) (levels : List (List ℕ))
    → IsStock b levels
    → 0 < paddr
    → paddr % 4096 ≡ 0
    → end % 4096 ≡ 0
    → end ≤ 2 ^ 44
    → paddr ≤ end
    → end ≤ paddr + n * 4096
    → ((x : ℕ) → covered x levels + within x paddr end ≤ 1)
    → (b' : Buddy) × (tile n paddr end b ≡ some b') × Tiles b levels paddr end b'
unfolding tile
tile_lem zero paddr end b levels s pos p e top le fuel apart = (
  b,
  refl,
  record {
    levels' = levels;
    stock = s;
    cover = λ x. ground arith;
    count = omega arith;
    kept = record { free = refl; base = refl; size = refl };
  },
)
tile_lem (suc n) paddr end b levels s pos p e top le fuel apart =
    elim (Bool-cases (ltb paddr end)) [
      | inr done ↦ (
        b,
        rw done refl,
        record {
          levels' = levels;
          stock = s;
          cover = λ x. ground arith;
          count = ground arith;
          kept = record { free = refl; base = refl; size = refl };
        },
      )
      | inl more ↦
          let left : 4096 ≤ end - paddr = ground arith in
          let (few, block, fits) =
            order_at_lem max_order paddr (end - paddr) p pos (omega (arith, le, top)) left in
          let o = order_at max_order paddr (end - paddr) in
          let cut = λ (x : ℕ).
            within_split x paddr (paddr + bytes o) end (omega arith) (omega (arith, fits, left)) in
          let more_free =
            λ (x : ℕ). covered-put x levels o paddr (omega (arith, levels_are s, few)) in
          let (b1, pushed, s1, kept1) =
            push_at_lem b levels o paddr s few block (λ x. omega (arith, apart x, cut x)) in
          let (b2, rest, r) =
            tile_lem n (paddr + bytes o) end b1 (put levels o paddr) s1 (omega (arith, pos))
              (omega (arith, p, bytes_pages o)) e top (omega (arith, fits, left))
              (omega (arith, fuel, le-bytes o)) (λ x. omega (arith, apart x, cut x, more_free x)) in
          (
            b2,
            rw (more, pushed) rest,
            record {
              levels' = r.levels';
              stock = r.stock;
              cover = λ x. omega (arith, r.cover x, cut x, more_free x);
              count = omega (
                arith,
                r.count,
                pages-put levels o paddr (omega (arith, levels_are s, few)),
                bytes_pages o,
              );
              kept = record {
                free = r.kept.free ∙ kept1.free;
                base = r.kept.base ∙ kept1.base;
                size = r.kept.size ∙ kept1.size;
              };
            },
          )
    ]

-- What `add_region` promises for the frames from `base` on.
pub record Adds (levels : List (List ℕ)) (base frames : ℕ) (out : Option (Option Buddy))
    : Type 0 where
  pub node : Buddy
  pub levels' : List (List ℕ)
  pub returned : out ≡ some (some node)
  pub buddy : IsBuddy node levels'
  pub cover : (x : ℕ) → covered x levels' ≡ covered x levels + within x base (base + frames * 4096)

new_lists : (n o : ℕ) (heap : Heap) → AreLists o heap (replicate n 0) (replicate n [])
new_lists zero o heap = tt
new_lists (suc n) o heap = (new-IsFreeList o heap, new_lists n (suc o) heap)

-- A node that is not there yet has eleven empty lists.
pub new_node-IsBuddy : (heap : Heap) → IsBuddy (new_node heap) (replicate 11 [])
unfolding new_node
new_node-IsBuddy heap = record {
  stock = record { heads = refl; lists = new_lists 11 0 heap; once = λ x. omega arith };
  counted = refl;
}

-- `add_region` of frames that are not free yet, at an aligned address above 0, makes exactly these
-- frames free, in whole aligned blocks, and counts them; it never panics.
pub add_region-Adds :
    (heap : Heap) (slot : Option Buddy) (levels : List (List ℕ)) (base frames : ℕ)
    → IsBuddy (node_or_new heap slot) levels
    → 0 < base
    → base % 4096 ≡ 0
    → base + frames * 4096 ≤ 2 ^ 44
    → ((x : ℕ) → covered x levels + within x base (base + frames * 4096) ≤ 1)
    → Adds levels base frames (add_region heap base frames slot)
unfolding add_region
add_region-Adds heap slot levels base frames v pos page top apart =
    let b = node_or_new heap slot in
    let node : Buddy = record b {
      base = if b.size == 0 then base else min base b.base;
      size = (b.size + frames) % 2 ^ 64;
      free = (b.free + frames) % 2 ^ 64;
    } in
    let (b', tiled, r) =
      tile_lem frames base (base + frames * page_size) node levels
        (record { heads = v.stock.heads; lists = v.stock.lists; once = v.stock.once }) pos page
        (omega (arith, page)) top (omega arith) (omega arith) apart in
    record {
      node = b';
      levels' = r.levels';
      returned = rw tiled refl;
      buddy = record { stock = r.stock; counted = omega (arith, r.kept.free, v.counted, r.count) };
      cover = r.cover;
    }
