-- ===== src/Pointer/LayoutLaws.antt =====
-- src/cfg/flat_layout.rs: regions and addresses determine each other.
use may_must_rs.Base.{List, String, ap, refl, some, sym, ℕ, ◌<◌, ◌∙◌, ◌≡◌}
use may_must_rs.Base.Int.{pos, ℤ, ◌≤ℤ◌}
use may_must_rs.Pointer.FindRegion.{find_region-addr, find_region-base}
use may_must_rs.Pointer.LaidOut.{flat_addr-base, laid_out}
use may_must_rs.Pointer.Layout.{
  add_regions, base_of, flat_addr, get_base, new_layout, plus_offset, region_at,
}

-- The address of an offset below the stride in a registered region is looked up as that region and
-- that offset.
pub region_at-flat_addr :
    (rs : List String) (r : String) (offset : ℕ) (addr : ℤ)
    → offset < 4096
    → flat_addr r (pos offset) (add_regions rs new_layout) ≡ some addr
    → region_at addr (add_regions rs new_layout) ≡ some (r, pos offset)
unfolding region_at
region_at-flat_addr rs r offset addr l h =
    let w = laid_out rs in
    let (b, there, sum) = flat_addr-base r (pos offset) addr (add_regions rs new_layout) w h in
    let (j, low, high, place, hit) =
      find_region-base 0 offset r b (add_regions rs new_layout).ordered l w.1 there in
    rw (sym sum, place) hit

-- What an address is looked up as has that address, and its offset lies between 0 and the stride.
pub flat_addr-region_at :
    (rs : List String) (r : String) (addr offset : ℤ)
    → region_at addr (add_regions rs new_layout) ≡ some (r, offset)
    → (flat_addr r offset (add_regions rs new_layout) ≡ some addr)
      × (pos 0 ≤ℤ offset)
      × (offset ≤ℤ pos 4095)
unfolding flat_addr base_of region_at
flat_addr-region_at rs r addr offset h =
    let w = laid_out rs in
    let (b, there, sum, low, high) =
      find_region-addr 0 addr r offset (add_regions rs new_layout).ordered w.1 w.2 h in
    (
      ap (λ xs. plus_offset offset (get_base r xs)) w.0 ∙ rw (there, plus_offset, sum) refl,
      low,
      high,
    )
