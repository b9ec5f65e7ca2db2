-- ===== src/Memmap/Chain.antt =====
-- `add_e820ext` of src/phase3/wboot.c, on the linked list of setup data.
use wboot.Prelude.{
  ℕ, zero, suc, ◌≡◌, ◌≢◌, ◌<◌, refl, arith, some, List, [], ◌∷◌, ◌++◌, length, All, All-append, sym,
  ◌*◌, ◌%◌,
}
use wboot.Prelude.Words.{u32_mod}
use wboot.Efi.{Ptr}
use wboot.Memmap.{SetupData, SetupStore, put_data, find_last, link, fill_ext, add_e820ext}

-- The list that begins at `head` has its nodes at these addresses, all different, and ends.
abbrev pub IsChain : SetupStore → Ptr → List Ptr → Type 0
IsChain store head [] = head ≡ 0
IsChain store head (p ∷ ps) =
    (head ≡ p) × (p ≢ 0) × All (λ q. q ≢ p) ps × IsChain store (store p).next ps

put_data-IsChain :
    (store : SetupStore) (p : Ptr) (x : SetupData) (head : Ptr) (ps : List Ptr)
    → All (λ q. q ≢ p) ps
    → IsChain store head ps
    → IsChain (put_data p x store) head ps
unfolding put_data
put_data-IsChain store p x head [] h c = c
put_data-IsChain store p x head (q ∷ ps) h (e, real, apart, c) =
    (e, real, apart, ground (arith, h.0, put_data-IsChain store p x (store q).next ps h.1 c))

-- The nodes have the types and the lengths that they had.
abbrev pub KeepsNodes : SetupStore → SetupStore → List Ptr → Type 0
KeepsNodes store store' =
    All (λ q. ((store' q).kind ≡ (store q).kind) × ((store' q).len ≡ (store q).len))

fill_ext-KeepsNodes :
    (e820ext : Ptr) (n : ℕ) (store : SetupStore) (ps : List Ptr)
    → All (λ q. q ≢ e820ext) ps
    → KeepsNodes store (fill_ext e820ext n store) ps
unfolding put_data
fill_ext-KeepsNodes e820ext n store [] h = tt
fill_ext-KeepsNodes e820ext n store (q ∷ ps) h =
    ((ground (arith, h.0), ground (arith, h.0)), fill_ext-KeepsNodes e820ext n store ps h.1)

link-KeepsNodes :
    (last e820ext : Ptr) (store store' : SetupStore) (ps : List Ptr)
    → KeepsNodes store store' ps
    → KeepsNodes store (link last e820ext store') ps
unfolding put_data
link-KeepsNodes last e820ext store store' [] h = tt
link-KeepsNodes last e820ext store store' (q ∷ ps) h = (
  (ground (arith, h.0.0), ground (arith, h.0.1)),
  link-KeepsNodes last e820ext store store' ps h.1,
)

-- The walk ends at the last node, and the new one is linked behind it.
record Appended (fuel : ℕ) (store : SetupStore) (head : Ptr) (ps : List Ptr) (e820ext : Ptr)
    : Type 0 where
  last : Ptr
  found : find_last fuel store head ≡ some last
  chain : IsChain (link last e820ext store) head (ps ++ e820ext ∷ [])
  inside : (q : Ptr) → All (λ p. p ≢ q) ps → last ≢ q

find_last-Appended :
    (fuel : ℕ) (store : SetupStore) (p : Ptr) (ps : List Ptr) (e820ext : Ptr)
    → length ps < fuel
    → IsChain store p (p ∷ ps)
    → All (λ q. q ≢ e820ext) (p ∷ ps)
    → e820ext ≢ 0
    → (store e820ext).next ≡ 0
    → Appended fuel store p (p ∷ ps) e820ext
unfolding find_last put_data
find_last-Appended zero store p ps e820ext lt c h real end = absurd (omega arith)
find_last-Appended (suc fuel) store p [] e820ext lt (e, p_real, apart, c) h real end = record {
  last = p;
  found = ground (arith, c);
  chain = (
    refl,
    p_real,
    (λ same. h.0 (sym same), tt),
    (ground arith, real, tt, ground (arith, end, h.0)),
  );
  inside = λ q others. others.0;
}
find_last-Appended (suc fuel) store p (q ∷ ps) e820ext lt (e, p_real, apart, c) h real end =
    let rest =
      find_last-Appended fuel store q ps e820ext (omega arith) (refl, c.1, c.2, c.3) h.1 real end in
    let behind = rest.inside p apart in
    record {
      last = rest.last;
      found = ground (arith, c.0, c.1, rest.found);
      chain = (
        refl,
        p_real,
        All-append (λ x. x ≢ p) (q ∷ ps) (e820ext ∷ []) apart (λ same. h.0 (sym same), tt),
        (ground (arith, behind, c.0), rest.chain.1, rest.chain.2, rest.chain.3),
      );
      inside = λ x others. rest.inside x others.1;
    }

-- `add_e820ext` puts the new node, with its type and its length, at the end of the list of setup
-- data, and leaves the nodes before it in their order, with their types and their lengths. The node
-- is not yet in the list, and the fuel is more than the list's length.
pub add_e820ext-IsChain :
    (fuel : ℕ) (e820ext : Ptr) (n : ℕ) (head : Ptr) (store : SetupStore) (ps : List Ptr)
    → length ps < fuel
    → IsChain store head ps
    → All (λ q. q ≢ e820ext) ps
    → e820ext ≢ 0
    → (head' : Ptr) × (store' : SetupStore) × (add_e820ext fuel e820ext n head store
        ≡ some (head', store'))
      × IsChain store' head' (ps ++ e820ext ∷ [])
      × ((store' e820ext).kind ≡ 1)
      × ((store' e820ext).len ≡ (n * 20) % u32_mod)
      × KeepsNodes store store' ps
unfolding add_e820ext put_data
add_e820ext-IsChain fuel e820ext n head store [] lt c h real = (
  e820ext,
  fill_ext e820ext n store,
  ground (arith, c),
  (refl, real, tt, ground arith),
  ground arith,
  ground arith,
  tt,
)
add_e820ext-IsChain fuel e820ext n head store (p ∷ ps) lt c h real =
    let filled = fill_ext e820ext n store in
    let kept =
      put_data-IsChain store e820ext (record { next = 0; kind = 1; len = (n * 20) % u32_mod }) p
        (p ∷ ps) h (refl, c.1, c.2, c.3) in
    let walk =
      find_last-Appended fuel filled p ps e820ext (omega arith) kept h real (ground arith) in
    let apart = walk.inside e820ext h in
    (
      head,
      link walk.last e820ext filled,
      ground (arith, c.0, c.1, walk.found),
      (c.0, walk.chain.1, walk.chain.2, walk.chain.3),
      ground (arith, apart),
      ground (arith, apart),
      link-KeepsNodes walk.last e820ext store filled (p ∷ ps)
          (fill_ext-KeepsNodes e820ext n store (p ∷ ps) h),
    )
