-- ===== src/Memoria/Handlers.antt =====
-- memoria/memoria.go: the handlers of the memory program, but those of the swap file. The delays
-- that they wait are left out, and the logs.
use tp_sisop_go_utn.Memoria.Requests.{
  GenericRequest, at_base, config_json, instruction_json, no_body, num_from_query, or_empty, pid_of,
  plain, query_get, respond, scanned, write_page_int,
}
use tp_sisop_go_utn.Memoria.Process.{create_process, delete_process, get_instruction}
use tp_sisop_go_utn.Memoria.Dump.{memory_dump}
use tp_sisop_go_utn.Base.{Bool, [], ◌∷◌, head?}
use tp_sisop_go_utn.Memoria.Access.{
  write_page, get_page, write_to_memory, get_from_memory, has_page,
}
use tp_sisop_go_utn.Utils.Strings.{split}
use tp_sisop_go_utn.Memoria.Address.{string_to_logic_address, logic_address_to_frame}
use tp_sisop_go_utn.Utils.Codeutils.{codes}
use tp_sisop_go_utn.Utils.Strconv.{itoa}
use tp_sisop_go_utn.Base.Outcome.{◌>>=◌, done, or_panic}

-- processDataReqHandler
unfoldable pub process_data_req_handler : GenericRequest
unfolding num_from_query get_instruction delete_process
process_data_req_handler =
    (
      codes "GET",
      record {
        req_params = codes "pid" ∷ codes "pc" ∷ [];
        callback = λ r.
            respond 502 instruction_json
              (get_instruction (pid_of r) (num_from_query r (codes "pc")));
      },
    )
    ∷ (
      codes "POST",
      record {
        req_params = codes "pid" ∷ codes "size" ∷ [];
        callback = λ r. respond 502 no_body (
            create_process (pid_of r) (scanned (split 10 r.body))
              (num_from_query r (codes "size")));
      },
    )
    ∷ (
      codes "DELETE",
      record {
        req_params = codes "pid" ∷ [];
        callback = λ r. respond 502 no_body (delete_process (pid_of r));
      },
    )
    ∷ []

-- processFrameReqHandler
unfoldable pub process_frame_req_handler : GenericRequest
unfolding num_from_query logic_address_to_frame string_to_logic_address
process_frame_req_handler =
    (
      codes "GET",
      record {
        req_params = codes "pid" ∷ codes "address" ∷ [];
        callback = λ r.
            respond 400 (λ base. plain (itoa base))
              (logic_address_to_frame (pid_of r)
                (string_to_logic_address (or_empty (query_get (codes "address") r.params))));
      },
    )
    ∷ []

-- userMemoryReqHandler. An empty body of a POST has no value[0].
unfoldable pub user_memory_req_handler : GenericRequest
unfolding num_from_query get_from_memory write_to_memory
user_memory_req_handler =
    (
      codes "GET",
      record {
        req_params = codes "pid" ∷ codes "base" ∷ codes "delta" ∷ [];
        callback = λ r.
            respond 400 (λ result. plain (result ∷ []))
              (at_base (pid_of r) (num_from_query r (codes "base"))
                (λ base. get_from_memory (pid_of r) base (num_from_query r (codes "delta"))));
      },
    )
    ∷ (
      codes "POST",
      record {
        req_params = codes "pid" ∷ codes "base" ∷ codes "delta" ∷ [];
        callback = λ r. or_panic (head? r.body) >>= λ value. respond 400 no_body (
            at_base (pid_of r) (num_from_query r (codes "base"))
              (λ base. write_to_memory (pid_of r) base (num_from_query r (codes "delta")) value));
      },
    )
    ∷ []

-- memoryDumpReqHandler, with whether the dump's file can be created.
unfoldable pub memory_dump_req_handler : Bool → GenericRequest
unfolding num_from_query memory_dump
memory_dump_req_handler created =
    (
      codes "ANY",
      record {
        req_params = codes "pid" ∷ [];
        callback = λ r. respond 502 no_body (memory_dump created (pid_of r));
      },
    )
    ∷ []

-- memoryConfigReqHandler, with GetConfig.
unfoldable pub memory_config_req_handler : GenericRequest
memory_config_req_handler =
    (
      codes "ANY",
      record {
        req_params = [];
        callback = λ r s. done (record { status = 200; body = config_json s.pagination }) s;
      },
    )
    ∷ []

-- fullPageReqHandler
unfoldable pub full_page_req_handler : GenericRequest
unfolding num_from_query has_page get_page write_page
full_page_req_handler =
    (
      codes "GET",
      record {
        req_params = codes "pid" ∷ codes "base" ∷ [];
        callback = λ r. respond 400 plain (
            at_base (pid_of r) (num_from_query r (codes "base"))
              λ base. do _ ← has_page (pid_of r) base; get_page (pid_of r) base);
      },
    )
    ∷ (
      codes "POST",
      record {
        req_params = codes "pid" ∷ codes "base" ∷ [];
        callback = λ r.
            respond 400 no_body
              (write_page_int (pid_of r) (num_from_query r (codes "base")) r.body);
      },
    )
    ∷ []

-- freeSpaceRequestHandler, with GetRemainingMemory.
unfoldable pub free_space_request_handler : GenericRequest
free_space_request_handler =
    (
      codes "ANY",
      record {
        req_params = [];
        callback = λ r s. done (record { status = 200; body = plain (itoa s.remaining) }) s;
      },
    )
    ∷ []
