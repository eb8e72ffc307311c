-- ===== src/Hevc/Intra/Gathered.antt =====
-- The references that hevc_intra.c gathers from a plane lie between the same values as its samples,
-- also where they are substituted.
use Prim.{Unit, tt}
use bc250_vulkan_encode_stop.Base.{
  ℕ, zero, suc, ◌+◌, ◌-◌, ◌*◌, ◌<◌, ◌≡◌, refl, ap, ◌∙◌, arith, List, [], ◌∷◌, ◌++◌, map, Bool,
  Option, none, some, length, length-append, length-map, length-replicate, replicate, get_or,
  if_split, append-nil,
}
use bc250_vulkan_encode_stop.Base.Int.{ℤ, pos, pos_part, sub_ℕ}
use bc250_vulkan_encode_stop.Base.Loops.{upto}
use bc250_vulkan_encode_stop.Hevc.Intra.Order.{
  Plane, reference, scan_references, first_available, filled, substituted, split_references, gather,
  zorder_available, zorder_rank,
}
use bc250_vulkan_encode_stop.Hevc.Intra.Range.{Between, AreBetween}

module _ (lo hi : ℕ) where
  EntriesBetween : List (Option ℕ) → Type 0
  EntriesBetween [] = Unit
  EntriesBetween (none ∷ rest) = EntriesBetween rest
  EntriesBetween (some v ∷ rest) = Between lo hi v × EntriesBetween rest

  AllBetween : List ℕ → Type 0
  AllBetween [] = Unit
  AllBetween (v ∷ vs) = Between lo hi v × AllBetween vs

  get_or-Between :
      (vs : List ℕ) (i : ℕ) → AllBetween vs → i < length vs → Between lo hi (get_or vs i 0)
  unfolding AllBetween
  get_or-Between [] i all h = elim h [ ]
  get_or-Between (v ∷ vs) zero all h = all.0
  get_or-Between (v ∷ vs) (suc i) all h = get_or-Between vs i all.1 (omega arith)

  filled-AllBetween :
      (previous : ℕ) (entries : List (Option ℕ))
      → Between lo hi previous
      → EntriesBetween entries
      → AllBetween (filled previous entries)
  unfolding EntriesBetween AllBetween filled
  filled-AllBetween previous [] h all = tt
  filled-AllBetween previous (none ∷ rest) h all = (h, filled-AllBetween previous rest h all)
  filled-AllBetween previous (some v ∷ rest) h all = (all.0, filled-AllBetween v rest all.0 all.1)

  replicate-AllBetween : (n v : ℕ) → Between lo hi v → AllBetween (replicate n v)
  unfolding AllBetween
  replicate-AllBetween zero v h = tt
  replicate-AllBetween (suc n) v h = (h, replicate-AllBetween n v h)

  first_available-Between :
      (entries : List (Option ℕ)) (v : ℕ)
      → EntriesBetween entries
      → first_available entries ≡ some v
      → Between lo hi v
  unfolding EntriesBetween first_available Between
  first_available-Between [] v all h = ground (arith, h)
  first_available-Between (none ∷ rest) v all h = first_available-Between rest v all h
  first_available-Between (some w ∷ rest) v all h = ground (arith, h, all)

  substituted-AllBetween :
      (entries : List (Option ℕ))
      → Between lo hi 128
      → EntriesBetween entries
      → AllBetween (substituted entries)
  unfolding substituted
  substituted-AllBetween entries middle all =
      elim (first_available entries)
          as (λ o.
            first_available entries ≡ o
            → AllBetween
                (elim o [ none ↦ replicate (length entries) 128 | some v ↦ filled v entries ])) [
                  | none ↦ λ h. replicate-AllBetween (length entries) 128 middle
                  | some v ↦
                      λ h. filled-AllBetween v entries (first_available-Between entries v all h) all
                ]
        refl

  reference-Between :
      (plane : Plane) (is_luma : Bool) (cur_rank : ℕ) (nx ny : ℤ) (rest : List (Option ℕ))
      → ((i : ℕ) → Between lo hi (plane.sample i))
      → EntriesBetween rest
      → EntriesBetween (reference plane is_luma cur_rank nx ny ∷ rest)
  unfolding reference EntriesBetween
  reference-Between plane is_luma cur_rank nx ny rest samples all =
      if_split (λ o. EntriesBetween (o ∷ rest))
        (zorder_available nx ny plane.width plane.height is_luma cur_rank)
        (λ h. (samples (pos_part ny * plane.stride + pos_part nx), all)) (λ h. all)

  map-EntriesBetween :
      (f : ℕ → Option ℕ) (is : List ℕ) (after : List (Option ℕ))
      → ((i : ℕ) (rest : List (Option ℕ)) → EntriesBetween rest → EntriesBetween (f i ∷ rest))
      → EntriesBetween after
      → EntriesBetween (map f is ++ after)
  map-EntriesBetween f [] after step all = all
  map-EntriesBetween f (i ∷ is) after step all =
      step i (map f is ++ after) (map-EntriesBetween f is after step all)

  scan-EntriesBetween :
      (plane : Plane) (x0 y0 : ℕ) (is_luma : Bool) (side : ℕ)
      → ((i : ℕ) → Between lo hi (plane.sample i))
      → EntriesBetween (scan_references plane x0 y0 is_luma side)
  unfolding scan_references
  scan-EntriesBetween plane x0 y0 is_luma side samples =
      let rank = zorder_rank x0 y0 plane.width is_luma in
      let along : ℕ → Option ℕ = λ x. reference plane is_luma rank (pos (x0 + x)) (sub_ℕ y0 1) in
      let up : ℕ → Option ℕ =
        λ i. reference plane is_luma rank (sub_ℕ x0 1) (pos (y0 + (side - 1 - i))) in
      let top_row : EntriesBetween (map along (upto side)) =
        rw (← append-nil (map along (upto side))) (
          map-EntriesBetween along (upto side) []
            (λ x rest all.
              reference-Between plane is_luma rank (pos (x0 + x)) (sub_ℕ y0 1) rest samples all)
            (unfold EntriesBetween in tt)) in
      map-EntriesBetween up (upto side)
        (reference plane is_luma rank (sub_ℕ x0 1) (sub_ℕ y0 1) ∷ map along (upto side))
        (λ i rest all.
          reference-Between plane is_luma rank (sub_ℕ x0 1) (pos (y0 + (side - 1 - i))) rest samples
            all)
        (reference-Between plane is_luma rank (sub_ℕ x0 1) (sub_ℕ y0 1) (map along (upto side))
          samples top_row)

length-upto : (n : ℕ) → length (upto n) ≡ n
unfolding upto
length-upto zero = refl
length-upto (suc n) = omega (arith, length-append (upto n) (n ∷ []), length-upto n)

length-filled :
    (previous : ℕ) (entries : List (Option ℕ)) → length (filled previous entries) ≡ length entries
unfolding filled
length-filled previous [] = refl
length-filled previous (none ∷ rest) = ap suc (length-filled previous rest)
length-filled previous (some v ∷ rest) = ap suc (length-filled v rest)

length-substituted : (entries : List (Option ℕ)) → length (substituted entries) ≡ length entries
unfolding substituted
length-substituted entries =
    elim (first_available entries)
      as (λ o.
        length (elim o [ none ↦ replicate (length entries) 128 | some v ↦ filled v entries ])
        ≡ length entries) [
          | none ↦ length-replicate {A = ℕ} (length entries) 128
          | some v ↦ length-filled v entries
        ]

length-scan :
    (plane : Plane) (x0 y0 : ℕ) (is_luma : Bool) (side : ℕ)
    → length (scan_references plane x0 y0 is_luma side) ≡ 2 * side + 1
unfolding scan_references
length-scan plane x0 y0 is_luma side =
    let rank = zorder_rank x0 y0 plane.width is_luma in
    let along : ℕ → Option ℕ = λ x. reference plane is_luma rank (pos (x0 + x)) (sub_ℕ y0 1) in
    let up : ℕ → Option ℕ =
      λ i. reference plane is_luma rank (sub_ℕ x0 1) (pos (y0 + (side - 1 - i))) in
    omega (
      arith,
      length-append (map up (upto side))
          (reference plane is_luma rank (sub_ℕ x0 1) (sub_ℕ y0 1) ∷ map along (upto side)),
      length-map (upto side) up,
      length-map (upto side) along,
      length-upto side,
    )

-- The references of a block, for a plane with samples between two values around 128.
pub gather-AreBetween :
    (lo hi : ℕ) (plane : Plane) (x0 y0 : ℕ) (is_luma : Bool) (side : ℕ)
    → ((i : ℕ) → Between lo hi (plane.sample i))
    → Between lo hi 128
    → AreBetween lo hi side (gather plane x0 y0 is_luma side)
unfolding gather split_references
gather-AreBetween lo hi plane x0 y0 is_luma side samples middle =
    let entries = scan_references plane x0 y0 is_luma side in
    let all =
      substituted-AllBetween lo hi entries middle
        (scan-EntriesBetween lo hi plane x0 y0 is_luma side samples) in
    let count : length (substituted entries) ≡ 2 * side + 1 =
      length-substituted entries ∙ length-scan plane x0 y0 is_luma side in
    let each : (i : ℕ) → i < 2 * side + 1 → Between lo hi (get_or (substituted entries) i 0) =
      λ i h. get_or-Between lo hi (substituted entries) i all (omega (arith, h, count)) in
    record {
      left = λ y h. each (side - 1 - y) (omega (arith, h));
      top = λ x h. each (side + 1 + x) (omega (arith, h));
      corner = each side (omega arith);
    }
