-- ===== src/Kozi/Saved.antt =====
-- The state that is saved and loaded again.
use simplex_go.Base.{
  ◌≡◌, ap, Bytes, Result, wrap_result, wrap, ◌>>=◌, ◌>>◌, >>=-eq-ok, wrap-eq-ok, wrap_result-eq-ok,
  ok,
}
use simplex_go.Block.{lift}
use simplex_go.Kozi.{State, contents, Os, state_path, load_state, save_state}

module _ {S : Type 0} (os : Os S) where
  -- When the state is saved without an error, a file that was written reads back, and the encoding
  -- of this state decodes to it, then loading gives the state that was saved.
  pub load_state-save_state :
      (st : State) (s s' : S)
      → ((path data' : Bytes) (t t' : S)
          → os.write_file path data' t ≡ (ok tt, t')
          → os.read_file path t' ≡ (contents data', t'))
      → ((data' : Bytes) → os.marshal st ≡ ok data' → os.unmarshal data' ≡ ok st)
      → save_state os st s ≡ (ok tt, s')
      → load_state os s' ≡ (ok st, s')
  unfolding save_state load_state
  load_state-save_state st s s' reads_back decodes e =
      let (path, s₁, e₁, k₁) =
        >>=-eq-ok (lift (state_path os))
          (λ path.
            wrap "create config dir" (os.mkdir_all (os.dir path))
            >> (lift (wrap_result "encode state" (os.marshal st))
                >>= (λ bytes. wrap "write state" (os.write_file path bytes))))
          s e in
      let (_, s₂, e₂, k₂) =
        >>=-eq-ok (wrap "create config dir" (os.mkdir_all (os.dir path)))
          (λ u.
            lift (wrap_result "encode state" (os.marshal st))
            >>= (λ bytes. wrap "write state" (os.write_file path bytes)))
          s₁ k₁ in
      let (bytes, s₃, e₃, k₃) =
        >>=-eq-ok (lift (wrap_result "encode state" (os.marshal st)))
          (λ bytes. wrap "write state" (os.write_file path bytes)) s₂ k₂ in
      let located : state_path os ≡ ok path = ap (λ (r : Result Bytes × S). r.0) e₁ in
      let encoded : wrap_result "encode state" (os.marshal st) ≡ ok bytes =
        ap (λ (r : Result Bytes × S). r.0) e₃ in
      let written = wrap-eq-ok "write state" (os.write_file path bytes) s₃ k₃ in
      rw (
        located,
        reads_back path bytes s₃ s' written,
        decodes bytes (wrap_result-eq-ok "encode state" (os.marshal st) encoded),
      )
