-- ===== src/Policy/Connector.antt =====
-- crates/hand-policy/src/connector.rs: the managed-sandbox connector classes. `none` of the source
-- is `no_network`, since `none` is the constructor of `Option`.
pub data ConnectorClass : Type 0 where
  no_network public allowlist : ConnectorClass

pub ConnectorClass-discrete : Discrete ConnectorClass
ConnectorClass-discrete = hlevel
