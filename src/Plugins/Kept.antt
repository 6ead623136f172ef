-- ===== src/Plugins/Kept.antt =====
-- What the registry of plugin.rs holds after plugins were registered.
use mathlib.Core.Option.{some-injective, none-ne-some}
use qdrust.Base.{
  Text, text_eq, text_eq→eq, some, List, [], ◌∷◌, Result, ok, err, All, ◌≡◌, sym, subst, ◌∙◌, inl,
  inr, Bool-cases, Option-cases, ok-injective,
}
use qdrust.Base.Dict.{lookup, insert, lookup-insert}
use qdrust.Plugins.{PluginError, Plugin, PluginRegistry, validate, registered, register}
use qdrust.Plugins.Loading.{register_each, begun, run_registry}

module _ (P : Plugin → Type 0) where
  -- A plugin of the kind that is found under an id has that id in its manifest.
  IsEntry : Text → Plugin → Type 0
  IsEntry id plugin = (plugin.manifest.id ≡ id) × P plugin

  pub IsKept : PluginRegistry → Type 0
  IsKept registry =
      (id : Text) (plugin : Plugin) → lookup id registry ≡ some plugin → IsEntry id plugin

  empty-IsKept : IsKept []
  unfolding IsKept lookup
  empty-IsKept id plugin h = absurd (none-ne-some plugin h)

  insert-IsKept :
      (plugin : Plugin) (registry : PluginRegistry)
      → P plugin
      → IsKept registry
      → IsKept (insert plugin.manifest.id plugin registry)
  unfolding IsKept IsEntry
  insert-IsKept plugin registry p k id other h = elim (Bool-cases (text_eq plugin.manifest.id id)) [
    | inl e ↦
        let same : plugin ≡ other =
          some-injective plugin other
            (rw e at (sym (lookup-insert plugin.manifest.id id plugin registry) ∙ h)) in
        subst (IsEntry id) same (text_eq→eq plugin.manifest.id id e, p)
    | inr e ↦ k id other (rw e at (sym (lookup-insert plugin.manifest.id id plugin registry) ∙ h))
  ]

  registered-IsKept :
      (result : Result PluginError (Unit {0})) (plugin : Plugin) (registry : PluginRegistry)
      → P plugin
      → IsKept registry
      → IsKept (registered result plugin registry).1
  unfolding registered
  registered-IsKept (err e) plugin registry p k = k
  registered-IsKept (ok u) plugin registry p k =
      elim (Option-cases (lookup plugin.manifest.id registry)) [
        | inl e ↦ rw e (insert-IsKept plugin registry p k)
        | inr (other, e) ↦ rw e k
      ]

  register_each-IsKept :
      (plugins : List Plugin) (registry : PluginRegistry)
      → All P plugins
      → IsKept registry
      → IsKept (register_each plugins registry)
  unfolding register_each register
  register_each-IsKept [] registry h k = k
  register_each-IsKept (plugin ∷ plugins) registry (p, h) k =
      register_each-IsKept plugins (register plugin registry).1 h
        (registered-IsKept (validate plugin.manifest) plugin registry p k)

  begun-IsKept :
      (first : Result PluginError (Unit {0}) × PluginRegistry) (plugins : List Plugin)
      {registry : PluginRegistry}
      → All P plugins
      → IsKept first.1
      → begun first plugins ≡ ok registry
      → IsKept registry
  unfolding begun
  begun-IsKept (err e, start) plugins h k same = cc
  begun-IsKept (ok u, start) plugins h k same =
      subst IsKept (ok-injective {a = register_each plugins start} same)
        (register_each-IsKept plugins start h k)

  -- Every plugin of a run's registry is one of those it was made from, under its own id.
  pub run_registry-IsKept :
      (utility : Plugin) (plugins : List Plugin) {registry : PluginRegistry}
      → P utility
      → All P plugins
      → run_registry utility plugins ≡ ok registry
      → IsKept registry
  unfolding run_registry register
  run_registry-IsKept utility plugins p h same =
      begun-IsKept (registered (validate utility.manifest) utility []) plugins h
        (registered-IsKept (validate utility.manifest) utility [] p empty-IsKept) same

  pub IsKept-found :
      (registry : PluginRegistry) (id : Text) (plugin : Plugin)
      → IsKept registry
      → lookup id registry ≡ some plugin
      → (plugin.manifest.id ≡ id) × P plugin
  unfolding IsKept IsEntry
  IsKept-found registry id plugin k h = k id plugin h
