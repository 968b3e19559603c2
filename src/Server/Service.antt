-- ===== src/Server/Service.antt =====
-- `KvCacheServiceImpl` of src/server.rs: the handlers of the gRPC service.
use kv_rdma_poc.Shared.{ℕ, Bool, true, false, List, none, some, map, Outcome, ok, err, panic, Exec}
use kv_rdma_poc.Message.{
  Message, empty, missing_location, missing_value, not_implemented, Status, status,
  invalid_argument, unimplemented,
}
use kv_rdma_poc.Protocol.{DomainAddress, location_from_pb}
use kv_rdma_poc.Protocol.Pb
use kv_rdma_poc.Protocol.Pb.{ValueSource, inline_value, rdma_location}
use kv_rdma_poc.Server.EntryMap.{DashMap}
use kv_rdma_poc.Server.{
  Host, RegisteredClient, insert_client, get_and_transfer, put_value, delete_value,
}

abbrev pub get_response : Bool → ℕ → Message → ℕ → Pb.GetResponse
get_response success value_length error_message request_id = record {
  success = success;
  value_length = value_length;
  error_message = error_message;
  request_id = request_id;
}

module _ {D : DashMap} where
  -- A failed lookup or transfer is a response too.
  unfoldable pub get_reply : ℕ → Outcome Status ℕ × Host D → Outcome Status Pb.GetResponse × Host D
  get_reply request_id (ok value_length, h) =
      (ok (get_response true value_length empty request_id), h)
  get_reply request_id (err status, h) = (ok (get_response false 0 status.message request_id), h)
  get_reply request_id (panic, h) = (panic, h)

  unfoldable pub put_reply :
      Outcome Message (Unit {0}) × Host D → Outcome Status Pb.PutResponse × Host D
  put_reply (ok _, h) = (ok (record { success = true; error_message = empty }), h)
  put_reply (err e, h) = (ok (record { success = false; error_message = e }), h)
  put_reply (panic, h) = (panic, h)

module _ (D : DashMap) where
  unfoldable pub get : ℕ → Pb.GetRequest → Exec (Host D) Status Pb.GetResponse
  unfolding get_reply
  get now req h = elim req.response_location [
    | none ↦ (err (status invalid_argument missing_location), h)
    | some loc ↦ get_reply req.request_id (get_and_transfer D req.key (location_from_pb loc) now h)
  ]

  unfoldable pub put : ℕ → Pb.PutRequest → Exec (Host D) Status Pb.PutResponse
  unfolding put_reply
  put now req h = elim req.value_source [
    | none ↦ (err (status invalid_argument missing_value), h)
    | some (inline_value v) ↦ put_reply (put_value D req.key v req.ttl_seconds now h)
    | some (rdma_location _) ↦ (err (status unimplemented not_implemented), h)
  ]

  unfoldable pub delete : Pb.DeleteRequest → Exec (Host D) Status Pb.DeleteResponse
  delete req h =
      let (existed, h') = delete_value D req.key h in
      (ok (record { success = true; key_existed = existed }), h')

  unfoldable pub register_client :
      Pb.RegisterClientRequest → Exec (Host D) Status Pb.RegisterClientResponse
  unfolding insert_client
  register_client req h =
      let client : RegisteredClient = record {
        client_id = req.client_id;
        domain_addresses = map (λ (a : List ℕ). record { bytes = a }) req.domain_addresses;
        receive_buffer_size = req.receive_buffer_size;
      } in
      (
        ok (record {
          success = true;
          server_id = h.config.node_id;
          server_domain_addresses =
              map (λ (a : DomainAddress). a.bytes) h.transport.inner.domain_addresses;
        }),
        record h {
          server = record h.server { clients = insert_client req.client_id client h.clients };
        },
      )

  unfoldable pub heartbeat : Pb.HeartbeatRequest → Exec (Host D) Status Pb.HeartbeatResponse
  heartbeat req h = (ok (record { alive = true }), h)
