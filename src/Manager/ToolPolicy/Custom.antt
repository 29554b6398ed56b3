-- ===== src/Manager/ToolPolicy/Custom.antt =====
-- The custom tools of an account: distinct names, each around a built-in tool.
use codebridge.Base.{
  String, Bool, true, false, ◌||◌, not, ◌≡◌, ◌≢◌, refl, sym, ◌∙◌, List, [], ◌∷◌, ◌++◌, arith,
  str_eq, eq_iff, Bool-cases, inl, inr, All, All-append, All-mono, map,
}
use codebridge.Manager.Registry.{list_account}
use codebridge.Manager.Connections.{CustomTool, Device, Registry}
use codebridge.Manager.ToolPolicy.{
  among, is_builtin_tool, custom_of, custom_loop, custom_devices, custom_tools_for_account,
}

abbrev pub IsUsable : CustomTool → Type 0
IsUsable c = (c.name ≢ "") × (is_builtin_tool c.tool ≡ true)

abbrev pub IsDistinct : List CustomTool → Type 0
IsDistinct [] = Unit
IsDistinct (c ∷ cs) = All (λ d. str_eq c.name d.name ≡ false) cs × IsDistinct cs

abbrev IsFresh : List String → CustomTool → Type 0
IsFresh seen c = among c.name seen ≡ false

abbrev names : List CustomTool → List String
names cs = map (λ c. c.name) cs

record IsSound (seen : List String) (out : List CustomTool × List String) : Type 0 where
  usable : All IsUsable out.0
  fresh : All (IsFresh seen) out.0
  distinct : IsDistinct out.0
  seen_after : (n : String) → among n out.1 ≡ (among n (names out.0) || among n seen)

or-left : (x y : Bool) → (x || y) ≡ false → x ≡ false
or-left x y h = ground arith

or-right : (x y : Bool) → (x || y) ≡ false → y ≡ false
or-right x y h = ground arith

or-swap : (x y z : Bool) → (y || (x || z)) ≡ ((x || y) || z)
or-swap x y z = ground arith

custom_loop-IsSound :
    (cs : List CustomTool) (seen : List String) → IsSound seen (custom_loop cs seen)
unfolding custom_loop among
custom_loop-IsSound [] seen = record {
  usable = tt;
  fresh = tt;
  distinct = tt;
  seen_after = λ n. refl;
}
custom_loop-IsSound (c ∷ cs) seen =
    elim (Bool-cases (among c.name seen || not (is_builtin_tool c.tool) || str_eq c.name "")) [
      | inl skip ↦ rw skip (custom_loop-IsSound cs seen)
      | inr keep ↦
          let more = custom_loop-IsSound cs (c.name ∷ seen) in
          rw keep (record {
            usable = ((ground (arith, eq_iff c.name ""), ground arith), more.usable);
            fresh = (
              ground arith,
              All-mono (IsFresh (c.name ∷ seen)) (IsFresh seen) _ (λ d h. or-right _ _ h)
                  more.fresh,
            );
            distinct = (
              All-mono (IsFresh (c.name ∷ seen)) (λ d. str_eq c.name d.name ≡ false) _
                  (λ d h. or-left _ _ h) more.fresh,
              more.distinct,
            );
            seen_after = λ n.
                more.seen_after n
                ∙ or-swap (str_eq c.name n) (among n (names (custom_loop cs (c.name ∷ seen)).0))
                    (among n seen);
          })
    ]

IsDistinct-append :
    (xs ys : List CustomTool)
    → IsDistinct xs
    → IsDistinct ys
    → All (IsFresh (names xs)) ys
    → IsDistinct (xs ++ ys)
unfolding among
IsDistinct-append [] ys hx hy h = hy
IsDistinct-append (x ∷ xs) ys hx hy h = (
  All-append (λ d. str_eq x.name d.name ≡ false) xs ys hx.0
      (All-mono (IsFresh (names (x ∷ xs))) (λ d. str_eq x.name d.name ≡ false) ys
        (λ d k. or-left _ _ k) h),
  IsDistinct-append xs ys hx.1 hy
      (All-mono (IsFresh (names (x ∷ xs))) (IsFresh (names xs)) ys (λ d k. or-right _ _ k) h),
)

custom_devices_sound :
    (ds : List Device) (seen : List String)
    → All IsUsable (custom_devices ds seen)
      × All (IsFresh seen) (custom_devices ds seen)
      × IsDistinct (custom_devices ds seen)
unfolding custom_devices
custom_devices_sound [] seen = (tt, tt, tt)
custom_devices_sound (d ∷ ds) seen =
    let here = custom_loop (custom_of d.tool_policy) seen in
    let first = custom_loop-IsSound (custom_of d.tool_policy) seen in
    let (usable, fresh, distinct) = custom_devices_sound ds here.1 in
    let apart : (c : CustomTool) → IsFresh here.1 c → IsFresh (names here.0) c × IsFresh seen c =
      λ c h.
        let both : (among c.name (names here.0) || among c.name seen) ≡ false =
          sym (first.seen_after c.name) ∙ h in
        (or-left _ _ both, or-right _ _ both) in
    (
      All-append IsUsable here.0 _ first.usable usable,
      All-append (IsFresh seen) here.0 _ first.fresh
          (All-mono (IsFresh here.1) (IsFresh seen) _ (λ c h. (apart c h).1) fresh),
      IsDistinct-append here.0 _ first.distinct distinct
          (All-mono (IsFresh here.1) (IsFresh (names here.0)) _ (λ c h. (apart c h).0) fresh),
    )

-- However the devices of an account name their custom tools, those that the account sees have a
-- name each, no two the same, and each wraps a built-in tool.
pub custom_tools-IsDistinct :
    (r : Registry) (account : String)
    → All IsUsable (custom_tools_for_account r account)
      × IsDistinct (custom_tools_for_account r account)
unfolding custom_tools_for_account
custom_tools-IsDistinct r account =
    let (usable, fresh, distinct) = custom_devices_sound (list_account r account) [] in
    (usable, distinct)
