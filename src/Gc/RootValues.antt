-- ===== src/Gc/RootValues.antt =====
-- `markRoots` of src/bbl.cpp goes through exactly the roots.
use mathlib.Core.List.Memᴰ
use mathlib.Core.List.{Memᴰ}
use bbl.Prelude.{
  ℕ, ◌≡◌, ◌≢◌, refl, sym, ap, subst, false, ◌==◌, if◌then◌else◌, Option, none, some, inl, inr, List,
  [], ◌∷◌, ◌++◌, arith, Bool-cases, Option-cases,
}
use bbl.Value.{as_ptr, make_string, make_closure, make_object}
use bbl.Gc.{Object, find_object, env_value}
use bbl.Gc.State.{
  VmRoots, Roots, env_values, string_values, frame_values, vm_values, root_values,
  remembered_content, remembered_values,
}
use bbl.Gc.Live.{IsRoot, IsSeed}
use bbl.Gc.Follows.{env-mem, mem-env, Scanned-content, content-Scanned}

envs-mem : (ads : List ℕ) (a : ℕ) → Memᴰ a ads → a ≢ 0 → Memᴰ (make_object a) (env_values ads)
unfolding env_values
envs-mem [] a m ne = absurd (Memᴰ.not-nil m)
envs-mem (x ∷ ads) a m ne = elim (Memᴰ.cases_cons m) [
  | inl same ↦
      Memᴰ.append_left (env_values ads)
        (subst (λ k. Memᴰ (make_object a) (env_value k)) same (env-mem a ne))
  | inr later ↦ Memᴰ.append_right (env_value x) (envs-mem ads a later ne)
]

mem-envs :
    (ads : List ℕ) (v : ℕ)
    → Memᴰ v (env_values ads)
    → (a : ℕ) × Memᴰ a ads × (a ≢ 0) × (v ≡ make_object a)
unfolding env_values
mem-envs [] v m = absurd (Memᴰ.not-nil m)
mem-envs (x ∷ ads) v m = elim (Memᴰ.append_cases (env_value x) m) [
  | inl l ↦ let (ne, e) = mem-env x v l in (x, Memᴰ.head refl, ne, e)
  | inr r ↦ let (a, at, ne, e) = mem-envs ads v r in (a, Memᴰ.tail at, ne, e)
]

strings-mem : (ads : List ℕ) (a : ℕ) → Memᴰ a ads → a ≢ 0 → Memᴰ (make_string a) (string_values ads)
unfolding string_values
strings-mem [] a m ne = absurd (Memᴰ.not-nil m)
strings-mem (x ∷ ads) a m ne = elim (Memᴰ.cases_cons m) [
  | inl same ↦
      let full : (x == 0) ≡ false =
        let apart = subst (λ k. k ≢ 0) same ne in ground (arith, apart) in
      rw full (Memᴰ.head (ap make_string same))
  | inr later ↦
      Memᴰ.append_right (if x == 0 then [] else make_string x ∷ []) (strings-mem ads a later ne)
]

mem-strings :
    (ads : List ℕ) (v : ℕ)
    → Memᴰ v (string_values ads)
    → (a : ℕ) × Memᴰ a ads × (a ≢ 0) × (v ≡ make_string a)
unfolding string_values
mem-strings [] v m = absurd (Memᴰ.not-nil m)
mem-strings (x ∷ ads) v m = elim (Memᴰ.append_cases (if x == 0 then [] else make_string x ∷ []) m) [
  | inl l ↦ elim (Bool-cases (x == 0)) [
    | inl z ↦ absurd (Memᴰ.not-nil (subst (λ b. Memᴰ v (if b then [] else make_string x ∷ [])) z l))
    | inr z ↦
        let same =
          Memᴰ.eq_of_singleton (subst (λ b. Memᴰ v (if b then [] else make_string x ∷ [])) z l) in
        (x, Memᴰ.head refl, λ e. absurd (ground arith), same)
  ]
  | inr r ↦ let (a, at, ne, e) = mem-strings ads v r in (a, Memᴰ.tail at, ne, e)
]

frames-mem :
    (rs : List ℕ) (r : ℕ)
    → Memᴰ r rs
    → as_ptr r ≢ 0
    → Memᴰ (make_closure (as_ptr r)) (frame_values rs)
unfolding frame_values
frames-mem [] r m ne = absurd (Memᴰ.not-nil m)
frames-mem (x ∷ rs) r m ne = elim (Memᴰ.cases_cons m) [
  | inl same ↦
      let full : (as_ptr x == 0) ≡ false =
        let apart = subst (λ k. as_ptr k ≢ 0) same ne in ground (arith, apart) in
      rw full (Memᴰ.head (ap (λ k. make_closure (as_ptr k)) same))
  | inr later ↦
      Memᴰ.append_right (if as_ptr x == 0 then [] else make_closure (as_ptr x) ∷ [])
        (frames-mem rs r later ne)
]

mem-frames :
    (rs : List ℕ) (v : ℕ)
    → Memᴰ v (frame_values rs)
    → (r : ℕ) × Memᴰ r rs × (as_ptr r ≢ 0) × (v ≡ make_closure (as_ptr r))
unfolding frame_values
mem-frames [] v m = absurd (Memᴰ.not-nil m)
mem-frames (x ∷ rs) v m =
    elim (Memᴰ.append_cases (if as_ptr x == 0 then [] else make_closure (as_ptr x) ∷ []) m) [
      | inl l ↦ elim (Bool-cases (as_ptr x == 0)) [
        | inl z ↦ absurd (
            Memᴰ.not-nil (subst (λ b. Memᴰ v (if b then [] else make_closure (as_ptr x) ∷ [])) z l))
        | inr z ↦
            let same =
              Memᴰ.eq_of_singleton
                (subst (λ b. Memᴰ v (if b then [] else make_closure (as_ptr x) ∷ [])) z l) in
            (x, Memᴰ.head refl, λ e. absurd (ground arith), same)
      ]
      | inr r ↦ let (a, at, ne, e) = mem-frames rs v r in (a, Memᴰ.tail at, ne, e)
    ]

module _ (r : Roots) where
  abbrev tail_names : List ℕ
  tail_names = string_values r.method_names ++ string_values r.symbol_names

  abbrev tail_modules : List ℕ
  tail_modules = env_values r.module_cache ++ tail_names

  abbrev tail_env : List ℕ
  tail_env = env_value r.current_env ++ tail_modules

  abbrev tail_vm : List ℕ
  tail_vm = vm_values r.vm ++ tail_env

  abbrev tail_returned : List ℕ
  tail_returned = r.return_values ++ tail_vm

  in_tail_vm : {v : ℕ} → Memᴰ v tail_vm → Memᴰ v (root_values r)
  unfolding root_values
  in_tail_vm m =
      Memᴰ.append_right r.call_args (Memᴰ.tail (Memᴰ.tail (Memᴰ.append_right r.return_values m)))

  in_vm :
      (vm : VmRoots) {v : ℕ}
      → r.vm ≡ some vm
      → Memᴰ v (vm_values (some vm))
      → Memᴰ v (root_values r)
  in_vm vm {v} e m =
      in_tail_vm (Memᴰ.append_left tail_env (subst (λ o. Memᴰ v (vm_values o)) (sym e) m))

  in_tail_env : {v : ℕ} → Memᴰ v tail_env → Memᴰ v (root_values r)
  in_tail_env m = in_tail_vm (Memᴰ.append_right (vm_values r.vm) m)

  in_names : {v : ℕ} → Memᴰ v tail_names → Memᴰ v (root_values r)
  in_names m = in_tail_env (
      Memᴰ.append_right (env_value r.current_env) (Memᴰ.append_right (env_values r.module_cache) m))

  pub IsRoot-values : {v : ℕ} → IsRoot r v → Memᴰ v (root_values r)
  unfolding root_values vm_values
  IsRoot-values (IsRoot.call_arg m) =
      Memᴰ.append_left (r.return_value ∷ r.last_recv_payload ∷ tail_returned) m
  IsRoot-values IsRoot.return_value = Memᴰ.append_right r.call_args (Memᴰ.head refl)
  IsRoot-values IsRoot.last_recv_payload =
      Memᴰ.append_right r.call_args (Memᴰ.tail (Memᴰ.head refl))
  IsRoot-values (IsRoot.returned m) =
      Memᴰ.append_right r.call_args (Memᴰ.tail (Memᴰ.tail (Memᴰ.append_left tail_vm m)))
  IsRoot-values (IsRoot.on_stack vm e m) =
      in_vm vm e (Memᴰ.append_left (frame_values vm.frame_regs ++ vm.globals) m)
  IsRoot-values (IsRoot.frame vm {v} e m ne) =
      in_vm vm e
        (Memᴰ.append_right vm.stack (Memᴰ.append_left vm.globals (frames-mem vm.frame_regs v m ne)))
  IsRoot-values (IsRoot.global vm e m) =
      in_vm vm e (Memᴰ.append_right vm.stack (Memᴰ.append_right (frame_values vm.frame_regs) m))
  IsRoot-values (IsRoot.environment ne) =
      in_tail_env (Memᴰ.append_left tail_modules (env-mem r.current_env ne))
  IsRoot-values (IsRoot.loaded_module {a} m ne) = in_tail_env (
      Memᴰ.append_right (env_value r.current_env)
        (Memᴰ.append_left tail_names (envs-mem r.module_cache a m ne)))
  IsRoot-values (IsRoot.method_name {a} m ne) =
      in_names (Memᴰ.append_left (string_values r.symbol_names) (strings-mem r.method_names a m ne))
  IsRoot-values (IsRoot.symbol_name {a} m ne) =
      in_names
        (Memᴰ.append_right (string_values r.method_names) (strings-mem r.symbol_names a m ne))

  vm_roots : (o : Option VmRoots) (v : ℕ) → r.vm ≡ o → Memᴰ v (vm_values o) → IsRoot r v
  unfolding vm_values
  vm_roots none v e m = absurd (Memᴰ.not-nil m)
  vm_roots (some vm) v e m = elim (Memᴰ.append_cases vm.stack m) [
    | inl l ↦ IsRoot.on_stack vm e l
    | inr rest ↦ elim (Memᴰ.append_cases (frame_values vm.frame_regs) rest) [
      | inl l ↦
          let (x, at, ne, same) = mem-frames vm.frame_regs v l in
          subst (IsRoot r) (sym same) (IsRoot.frame vm e at ne)
      | inr g ↦ IsRoot.global vm e g
    ]
  ]

  tail_env_roots : (v : ℕ) → Memᴰ v tail_env → IsRoot r v
  tail_env_roots v m = elim (Memᴰ.append_cases (env_value r.current_env) m) [
    | inl l ↦
        let (ne, same) = mem-env r.current_env v l in
        subst (IsRoot r) (sym same) (IsRoot.environment ne)
    | inr rest ↦ elim (Memᴰ.append_cases (env_values r.module_cache) rest) [
      | inl l ↦
          let (a, at, ne, same) = mem-envs r.module_cache v l in
          subst (IsRoot r) (sym same) (IsRoot.loaded_module at ne)
      | inr names ↦ elim (Memᴰ.append_cases (string_values r.method_names) names) [
        | inl l ↦
            let (a, at, ne, same) = mem-strings r.method_names v l in
            subst (IsRoot r) (sym same) (IsRoot.method_name at ne)
        | inr l ↦
            let (a, at, ne, same) = mem-strings r.symbol_names v l in
            subst (IsRoot r) (sym same) (IsRoot.symbol_name at ne)
      ]
    ]
  ]

  pub values-IsRoot : (v : ℕ) → Memᴰ v (root_values r) → IsRoot r v
  unfolding root_values
  values-IsRoot v m = elim (Memᴰ.append_cases r.call_args m) [
    | inl l ↦ IsRoot.call_arg l
    | inr rest ↦ elim (Memᴰ.cases_cons rest) [
      | inl same ↦ subst (IsRoot r) (sym same) IsRoot.return_value
      | inr rest₂ ↦ elim (Memᴰ.cases_cons rest₂) [
        | inl same ↦ subst (IsRoot r) (sym same) IsRoot.last_recv_payload
        | inr rest₃ ↦ elim (Memᴰ.append_cases r.return_values rest₃) [
          | inl l ↦ IsRoot.returned l
          | inr rest₄ ↦ elim (Memᴰ.append_cases (vm_values r.vm) rest₄) [
            | inl l ↦ vm_roots r.vm v refl l
            | inr l ↦ tail_env_roots v l
          ]
        ]
      ]
    ]
  ]

  -- the values that a minor collection starts from
  module _ (os : List Object) where
    remembered-mem :
        (set : List ℕ) (x v : ℕ) {o : Object}
        → Memᴰ x set
        → find_object x os ≡ some o
        → Memᴰ v (remembered_content o.content)
        → Memᴰ v (remembered_values os set)
    unfolding remembered_values
    remembered-mem [] x v m found at = absurd (Memᴰ.not-nil m)
    remembered-mem (y ∷ set) x v {o} m found at = elim (Memᴰ.cases_cons m) [
      | inl same ↦
          let here : find_object y os ≡ some o =
            subst (λ k. find_object k os ≡ some o) same found in
          Memᴰ.append_left (remembered_values os set) (rw here at)
      | inr later ↦ Memᴰ.append_right _ (remembered-mem set x v later found at)
    ]

    mem-remembered :
        (set : List ℕ) (v : ℕ)
        → Memᴰ v (remembered_values os set)
        → (x : ℕ) × (o : Object) × Memᴰ x set
          × (find_object x os ≡ some o)
          × Memᴰ v (remembered_content o.content)
    unfolding remembered_values
    mem-remembered [] v m = absurd (Memᴰ.not-nil m)
    mem-remembered (y ∷ set) v m =
        let later : Memᴰ v (remembered_values os set)
            → (x : ℕ) × (o : Object) × Memᴰ x (y ∷ set)
              × (find_object x os ≡ some o)
              × Memᴰ v (remembered_content o.content) =
          λ l.
            let (x, o, at, found, there) = mem-remembered set v l in
            (x, o, Memᴰ.tail at, found, there) in
        elim (Memᴰ.append_cases
          (elim (find_object y os) as (λ _. List ℕ) [
            | none ↦ []
            | some o ↦ remembered_content o.content
          ])
          m) [
            | inr l ↦ later l
            | inl l ↦ elim (Option-cases (find_object y os)) [
              | inl z ↦ absurd (Memᴰ.not-nil (rw z at l))
              | inr (o, z) ↦ (y, o, Memᴰ.head refl, z, rw z at l)
            ]
          ]

    pub IsSeed-values :
        (set : List ℕ) {v : ℕ}
        → IsSeed r os set v
        → Memᴰ v (root_values r ++ remembered_values os set)
    IsSeed-values set (IsSeed.from_root root) =
        Memᴰ.append_left (remembered_values os set) (IsRoot-values root)
    IsSeed-values set (IsSeed.from_remembered {x} {v} m found sc) =
        Memᴰ.append_right (root_values r) (remembered-mem set x v m found (Scanned-content sc))

    pub values-IsSeed :
        (set : List ℕ) (v : ℕ)
        → Memᴰ v (root_values r ++ remembered_values os set)
        → IsSeed r os set v
    values-IsSeed set v m = elim (Memᴰ.append_cases (root_values r) m) [
      | inl l ↦ IsSeed.from_root (values-IsRoot v l)
      | inr l ↦
          let (x, o, at, found, there) = mem-remembered set v l in
          IsSeed.from_remembered at found (content-Scanned o.content v there)
    ]
