-- ===== src/Tests/Answering.antt =====
-- A server with one client, whose request arrives in one piece.
use httpd_cpp.Base.{◌≡◌, refl, [], ◌∷◌, some, Returns, arith}
use httpd_cpp.Bytes
use httpd_cpp.Bytes.{codes}
use httpd_cpp.Buffer.Fd.{Received}
use httpd_cpp.StringMap
use httpd_cpp.ThreadPool
use httpd_cpp.RequestStore.{find}
use httpd_cpp.HttpRequest
use httpd_cpp.HttpResponse
use httpd_cpp.HttpResponse.{decimal, decimal_from}
use httpd_cpp.PriorityQueue.Heap.{list_heap}
use httpd_cpp.Callback.{with_message, file_path, file_size, handle_headers, handle_keep_alive}
use httpd_cpp.Server.{Server, handle_event, run_task, is_broken}
use httpd_cpp.Callback.Files.{answered}
use httpd_cpp.Callback.Reads.{fails}
use httpd_cpp.Server.Ownership.{Inv}
use httpd_cpp.Server.Totality.{run_task_total}
use httpd_cpp.Server.Answering.{Open, event_answered}
use httpd_cpp.Tests.Http.{
  index_page, keep_alive, index_page-IsWritable, keep_alive-AllHeaders, request_text,
}
use httpd_cpp.Tests.Rounds.{server, server-Inv, willing, readable}
use httpd_cpp.Tests.Service.{world_then, client, junk_world, junk_fits, page_mapped}

abbrev serving : Server
serving = record server { requests = (200, client) ∷ [] }

event_answered_example : Returns (handle_event list_heap willing (readable 200) serving) (λ s1.
    (s1.pool.queue ≡ 200 ∷ [])
    × Returns
        (run_task list_heap 9
          (world_then (Received.failed 11))
          200
          (record s1 { pool = ThreadPool.new }))
        (λ o. (s2 : Server) × (o ≡ some s2) × Open 200 client (record { sec = 1; usec = 0 }) [] s2))
unfolding find ThreadPool.is_full ThreadPool.start ThreadPool.set_max_queue_size ThreadPool.new
    with_message answered file_path file_size handle_headers handle_keep_alive HttpRequest.new
    HttpRequest.method_string is_broken HttpRequest.get_header HttpRequest.add_header_func
    HttpRequest.handle_func HttpRequest.add_header HttpRequest.set_method HttpRequest.set_version
    HttpRequest.set_query HttpRequest.set_path StringMap.find StringMap.insert StringMap.assign
    Bytes.equal Bytes.less Bytes.find HttpResponse.new HttpResponse.set_body
    HttpResponse.set_content_type HttpResponse.set_status_code HttpResponse.set_status_message
    HttpResponse.set_close_connection HttpResponse.get_message_from_status HttpResponse.add_header
    decimal decimal_from
event_answered_example =
    event_answered list_heap willing 9 (world_then (Received.failed 11)) serving ThreadPool.new
      (readable 200) client index_page keep_alive (request_text ∷ []) (codes "G") refl refl refl
      refl refl index_page-IsWritable keep_alive-AllHeaders refl
      ((λ e. cc), (λ space. refl), λ space. refl) (omega arith) (omega arith) (omega arith) refl
      (omega arith) (λ s found r o. page_mapped found)

run_task_total_example :
    Returns
      (run_task list_heap 9 junk_world 200 server)
      (λ o. (s' : Server) × (o ≡ some s') × Inv s'.requests s'.queue.timers)
unfolding find
run_task_total_example =
    run_task_total list_heap junk_world server 200 9 (codes "??" ∷ []) server-Inv refl (fails 11)
      ((λ e. cc), (λ space. refl), λ space. refl) (omega arith) (omega arith) junk_fits
      (λ path s found r o. page_mapped found)
